-- ===== src/Memory/Reference.antt =====
-- The tools of the memory against a memory that is a function from keys to values.
use pherix.Base.{
  String, ◌≡◌, refl, sym, ap, subst, ◌∙◌, false, ◌&&◌, Option, none, some, [], ◌∷◌, ◌==◌, arith,
  eq_iff, eq_refl, if◌then◌else◌,
}
use pherix.Values.{Value, Args}
use pherix.Effects.{Effect}
use pherix.Errors.{Result, ok, err}
use pherix.Memory.{Rows, Database, Texts, select_value, upsert, delete_value}
use pherix.Memory.Handle.{
  Handle, Body, returns, raises, remembers, recalls, forgets, payload_text, run_body, remember,
  forget, record_read_key,
}
use pherix.Memory.Store.{memory_tool, handle_for}

abbrev pub Model : Type 0
Model = String → Option String

abbrev pub set_value : String → Option String → Model → Model
set_value key v m k = if key == k then v else m k

-- What a body gives on such a memory, and the memory after it.
unfoldable pub reference : Texts → Body → Model → Result Value × Model
reference t (returns v) m = (ok v, m)
reference t (raises x) m = (err x, m)
reference t (remembers key value next) m =
    reference t next (set_value key (some (payload_text t value)) m)
reference t (recalls key next) m = reference t (next (m key)) m
reference t (forgets key next) m = reference t next (set_value key none m)

pub select-upsert :
    (ns ns' key k value : String) (rows : Rows)
    → select_value ns' k (upsert ns key value rows)
      ≡ (if ns == ns' && key == k then some value else select_value ns' k rows)
unfolding select_value upsert
select-upsert ns ns' key k value [] = refl
select-upsert ns ns' key k value (row ∷ rows) = ground (
  arith,
  eq_iff ns ns',
  eq_iff key k,
  eq_iff row.namespace ns,
  eq_iff row.namespace ns',
  eq_iff row.mem_key key,
  eq_iff row.mem_key k,
  select-upsert ns ns' key k value rows,
)

pub select-delete :
    (ns ns' key k : String) (rows : Rows)
    → select_value ns' k (delete_value ns key rows)
      ≡ (if ns == ns' && key == k then none else select_value ns' k rows)
unfolding select_value delete_value
select-delete ns ns' key k [] = ground arith
select-delete ns ns' key k (row ∷ rows) = ground (
  arith,
  eq_iff ns ns',
  eq_iff key k,
  eq_iff row.namespace ns,
  eq_iff row.namespace ns',
  eq_iff row.mem_key key,
  eq_iff row.mem_key k,
  select-delete ns ns' key k rows,
)

module _ (t : Texts) (ns : String) where
  abbrev pub Looks : Rows → Model → Type 0
  Looks rows m = (k : String) → select_value ns k rows ≡ m k

  -- The other namespaces are as they were.
  abbrev pub Others : Rows → Rows → Type 0
  Others rows rows' =
      (ns' k : String) → (ns == ns') ≡ false → select_value ns' k rows' ≡ select_value ns' k rows

  Looks-upsert :
      (key value : String) (rows : Rows) (m : Model)
      → Looks rows m
      → Looks (upsert ns key value rows) (set_value key (some value) m)
  Looks-upsert key value rows m looks k =
      select-upsert ns ns key k value rows ∙ ground (arith, eq_refl ns, looks k)

  Looks-delete :
      (key : String) (rows : Rows) (m : Model)
      → Looks rows m
      → Looks (delete_value ns key rows) (set_value key none m)
  Looks-delete key rows m looks k =
      select-delete ns ns key k rows ∙ ground (arith, eq_refl ns, looks k)

  Others-upsert : (key value : String) (rows : Rows) → Others rows (upsert ns key value rows)
  Others-upsert key value rows ns' k other = select-upsert ns ns' key k value rows ∙ rw other refl

  Others-delete : (key : String) (rows : Rows) → Others rows (delete_value ns key rows)
  Others-delete key rows ns' k other = select-delete ns ns' key k rows ∙ rw other refl

  Others-trans : (u v w : Rows) → Others u v → Others v w → Others u w
  Others-trans u v w first second ns' k other = second ns' k other ∙ first ns' k other

  rows-read : (key : String) (s : Handle) → (record_read_key t ns key s).rows ≡ s.rows
  unfolding record_read_key
  rows-read key s = ground arith

  -- The run gives what the reference gives, and the rows then look like its memory.
  pub record Follows (rows : Rows) (got : Result Value × Handle) (want : Result Value × Model)
      : Type 0 where
    pub same_result : got.0 ≡ want.0
    pub looks : Looks got.1.rows want.1
    pub others : Others rows got.1.rows

  run_body-Follows :
      (body : Body) (s : Handle) (m : Model)
      → Looks s.rows m
      → Follows s.rows (run_body t ns body s) (reference t body m)
  unfolding run_body reference
  run_body-Follows (returns v) s m looks = record {
    same_result = refl;
    looks = looks;
    others = λ ns' k other. refl;
  }
  run_body-Follows (raises x) s m looks = record {
    same_result = refl;
    looks = looks;
    others = λ ns' k other. refl;
  }
  run_body-Follows (remembers key value next) s m looks =
      let text = payload_text t value in
      let rest =
        run_body-Follows next (remember t ns key value s) (set_value key (some text) m)
          (Looks-upsert key text s.rows m looks) in
      record {
        same_result = rest.same_result;
        looks = rest.looks;
        others =
            Others-trans s.rows (upsert ns key text s.rows) _ (Others-upsert key text s.rows)
              rest.others;
      }
  run_body-Follows (recalls key next) s m looks =
      let same = rows-read key s in
      let rest = run_body-Follows (next (m key)) (record_read_key t ns key s) m (rw same looks) in
      subst
        (λ found.
          Follows s.rows (run_body t ns (next found) (record_read_key t ns key s))
            (reference t (next (m key)) m))
        (sym (looks key))
        (record {
          same_result = rest.same_result;
          looks = rest.looks;
          others = λ ns' k other. rest.others ns' k other ∙ ap (select_value ns' k) same;
        })
  run_body-Follows (forgets key next) s m looks =
      let rest =
        run_body-Follows next (forget t ns key s) (set_value key none m)
          (Looks-delete key s.rows m looks) in
      record {
        same_result = rest.same_result;
        looks = rest.looks;
        others =
            Others-trans s.rows (delete_value ns key s.rows) _ (Others-delete key s.rows)
              rest.others;
      }

  -- A tool of the memory of one namespace, whatever it branches on, gives the result that the
  -- reference gives on the values of the namespace, leaves the values of the reference behind, and
  -- changes neither the values of any other namespace nor what a rollback goes back to.
  pub memory_tool_refines :
      (body : Args → Body) (e : Effect) (w : Database)
      → let run = memory_tool t ns body e w in
        let want = reference t (body e.args) (λ k. select_value ns k w.rows) in
        (run.result ≡ want.0)
        × ((k : String) → select_value ns k run.world.rows ≡ want.1 k)
        × ((ns' k : String)
            → (ns == ns') ≡ false
            → select_value ns' k run.world.rows ≡ select_value ns' k w.rows)
        × (run.world.begun ≡ w.begun)
        × (run.world.savepoints ≡ w.savepoints)
  unfolding memory_tool
  memory_tool_refines body e w =
      let follows =
        run_body-Follows (body e.args) (handle_for t ns w) (λ k. select_value ns k w.rows)
          (λ k. refl) in
      (follows.same_result, follows.looks, follows.others, refl, refl)
