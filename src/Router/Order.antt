-- ===== src/Router/Order.antt =====
-- The order in which fastmoe/serve/router/manager.py hands requests to the model server.
use mathlib.Core.List.{append_assoc, append-nil}
use harvest_mo_e.Base.{List, [], ◌∷◌, ◌++◌, none, some, map, ◌≡◌, refl, ap, sym, ◌∙◌}
use harvest_mo_e.KvPool.{RowTensors}
use harvest_mo_e.Requests.Admission.{BatchTokenizedGenerateReqInput}
use harvest_mo_e.Serving.{Setting}
use harvest_mo_e.Router.{
  Received, RouterManager, as_batch, receive, begin_step, end_step, Run, started, received, begun,
  ended,
}

map-append : (xs ys : List Received) → map as_batch (xs ++ ys) ≡ map as_batch xs ++ map as_batch ys
map-append [] ys = refl
map-append (x ∷ xs) ys = ap (λ rest. as_batch x ∷ rest) (map-append xs ys)

module _ {V : Type 0} {lib : RowTensors V} where
  -- The input of the step that is awaited.
  abbrev pub in_step : RouterManager lib → List BatchTokenizedGenerateReqInput
  in_step r = elim r.next_step_input [ none ↦ [] | some inputs ↦ inputs ]

-- From a router without requests and without a step, in any order of receives and steps: what was
-- received, each request as a batch, is what the finished steps were given, then what the step that
-- is awaited was given, then what waits, in this order.
pub Run-in_order :
    {V : Type 0} (lib : RowTensors V) (setting : Setting) (start : RouterManager lib)
    (reqs : List Received) (handed : List BatchTokenizedGenerateReqInput) (r : RouterManager lib)
    → start.recv_reqs ≡ []
    → start.next_step_input ≡ none
    → Run lib setting start reqs handed r
    → map as_batch reqs ≡ handed ++ (in_step r ++ map as_batch r.recv_reqs)
unfolding receive begin_step end_step
Run-in_order lib setting start _ _ _ e idle started = rw e rw idle refl
Run-in_order lib setting start _ _ _ e idle (received req {reqs} {handed} {r} run) =
    let before = Run-in_order lib setting start reqs handed r e idle run in
    let one = as_batch req ∷ [] in
    let waiting = map as_batch r.recv_reqs in
    map-append reqs (req ∷ [])
    ∙ ap (λ bs. bs ++ one) before
    ∙ append_assoc handed (in_step r ++ waiting) one
    ∙ ap (λ bs. handed ++ bs) (append_assoc (in_step r) waiting one)
    ∙ ap (λ bs. handed ++ (in_step r ++ bs)) (sym (map-append r.recv_reqs (req ∷ [])))
Run-in_order lib setting start _ _ _ e idle (begun {reqs} {handed} {r} run free) =
    let before = Run-in_order lib setting start reqs handed r e idle run in
    let none_in : in_step r ≡ [] = rw free refl in
    before
    ∙ ap (λ bs. handed ++ (bs ++ map as_batch r.recv_reqs)) none_in
    ∙ ap (λ bs. handed ++ bs) (sym (append-nil (map as_batch r.recv_reqs)))
Run-in_order lib setting start _ _ _ e idle (ended inputs {reqs} {handed} {r} run waiting) =
    let before = Run-in_order lib setting start reqs handed r e idle run in
    let given : in_step r ≡ inputs = rw waiting refl in
    before
    ∙ ap (λ bs. handed ++ (bs ++ map as_batch r.recv_reqs)) given
    ∙ sym (append_assoc handed inputs (map as_batch r.recv_reqs))
