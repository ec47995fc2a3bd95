-- ===== src/Incremental/Outcomes/Distinct.antt =====
-- Each ready event has at most one result.
use sentinel_aegis_forge.Common.{
  not-eq-true, raise_if-not-eq-ok, and-eq-true, String, ◌≡◌, sym, subst, not, ◌&&◌, Option, none,
  some, List, [], ◌∷◌, nat_eq, string_eq, pair_eq, list_eq, contains, IsNodup, Dict, lookup, keys,
  IsNodup-snoc, keys-append, ok, raise_if, >>=-eq-ok, ok-eq,
}
use sentinel_aegis_forge.Common.Json.{Json, Object}
use sentinel_aegis_forge.Incremental.Stream.{Manifest, File, Directory, read_object, invalid_result}
use sentinel_aegis_forge.Incremental.Outcomes.{
  Outcome, Status, status_of, string_of, result_ok, outcome_ok, add_result, store, results_from,
  results_of,
}

module _ (digest : Json → String) where
  -- The keys of what is found, after a result was added, are still distinct.
  store-IsNodup :
      (manifest : Manifest) (stem : String) (item : Object) (found next : Dict String Outcome)
      (ready_id : Option String) (status : Option Status)
      → IsNodup (keys found)
      → store digest manifest stem item found ready_id status ≡ ok next
      → IsNodup (keys next)
  unfolding store
  store-IsNodup manifest stem item found next none status d h = cc
  store-IsNodup manifest stem item found next (some ready_id) none d h = cc
  store-IsNodup manifest stem item found next (some ready_id) (some status) d h =
      let good = result_ok digest manifest stem ready_id item in
      let fresh = not (contains ready_id (keys found)) in
      let (_, checked, h) =
        >>=-eq-ok (raise_if (not (good && (fresh && outcome_ok status item))) invalid_result) _ h in
      let (_, rest) = and-eq-true good _ (raise_if-not-eq-ok invalid_result _ checked) in
      let (new, _) = and-eq-true fresh _ rest in
      let last : Dict String Outcome = (ready_id, record { status = status; item = item }) ∷ [] in
      subst (λ (f : Dict String Outcome). IsNodup (keys f)) (ok-eq h)
        (subst IsNodup (sym (keys-append found last))
          (IsNodup-snoc ready_id (keys found) (not-eq-true (contains ready_id (keys found)) new) d))

  add_result-IsNodup :
      (manifest : Manifest) (stem : String) (item : Object) (found next : Dict String Outcome)
      → IsNodup (keys found)
      → add_result digest manifest stem item found ≡ ok next
      → IsNodup (keys next)
  unfolding add_result
  add_result-IsNodup manifest stem item found next d h =
      store-IsNodup manifest stem item found next (string_of (lookup "ready_event_id" item))
        (status_of (string_of (lookup "execution_status" item))) d h

  results_from-IsNodup :
      (manifest : Manifest) (files : List File) (found next : Dict String Outcome)
      → IsNodup (keys found)
      → results_from digest manifest files found ≡ ok next
      → IsNodup (keys next)
  unfolding results_from
  results_from-IsNodup manifest [] found next d h =
      subst (λ (f : Dict String Outcome). IsNodup (keys f)) (ok-eq h) d
  results_from-IsNodup manifest ((stem, file) ∷ rest) found next d h =
      let (item, _, h) = >>=-eq-ok (read_object file) _ h in
      let (after, one, h) = >>=-eq-ok (add_result digest manifest stem item found) _ h in
      results_from-IsNodup manifest rest after next
        (add_result-IsNodup manifest stem item found after d one) h

  pub results_of-IsNodup :
      (root : Directory) (results : Dict String Outcome)
      → results_of digest root ≡ ok results
      → IsNodup (keys results)
  unfolding results_of
  results_of-IsNodup root results h =
      results_from-IsNodup root.manifest root.results [] results tt h
