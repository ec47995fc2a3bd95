-- ===== src/KafkaShadow/Inbox/Sealed.antt =====
-- What a sealed inbox guarantees: its events, its receipts and its offsets.
pub mod Moves
use sentinel_aegis_forge.Common.{
  raise_if-not-eq-ok, and-eq-true, ℕ, String, ◌≡◌, refl, ap, subst, true, not, ◌&&◌, Option, none,
  some, List, [], ◌∷◌, arith, eq_iff, ◌==◌, nat_eq, string_eq, pair_eq, list_eq, length, All,
  is_distinct, same_set, IsNodup, is_distinct→IsNodup, lookup, keys, ok, raise_if, >>=-eq-ok, ok-eq,
  sort, sort-All,
}
use sentinel_aegis_forge.Common.Json.{
  Json, text, obj, fields, Object, has_value, has_values, same_object,
}
use sentinel_aegis_forge.Availability.Outbox.{ReadyEvent, ready_ids}
use sentinel_aegis_forge.KafkaShadow.Inbox.{
  InboxDirectory, ReceiptFile, readable, natural_at, found_event, by_name, restrict, basis_keys,
  required_names, expected_receipt, check_receipt, coordinates_of, inventory_from,
  receipt_inventory, observed_from, counts_agree, inspect_inbox, is_supported, is_of_batch,
  expected_identity, file_names, json_names, receipt_linked, receipt_content, receipt_root,
  identity_linked, identity_differs, receipts_directory, receipt_membership, unreadable,
  fields_differ, unsupported, batch_differs, duplicate_identity, semantic_identity,
  inventory_changed, count_differs,
}
use sentinel_aegis_forge.KafkaShadow.Inbox.Sealed.Moves.{
  Moved, observed_from-Moved, Counted, counts_agree-Counted,
}

module _ (digest : Json → String) (file_hash : String → String) where
  -- The file is named for an event and holds its receipt.
  abbrev pub Receipted : List ReadyEvent → Object → ReceiptFile → Type 0
  Receipted events manifest file =
      (event : ReadyEvent) × (receipt : Object) × (found_event events file.name ≡ some event)
      × (file.content ≡ some receipt)
      × (has_values receipt (expected_receipt digest file_hash manifest event) ≡ true)

  readable-eq : {A : Type 0} (o : Option A) (a : A) → readable o ≡ ok a → o ≡ some a
  unfolding readable
  readable-eq (some b) a h = ap some (ok-eq h)
  readable-eq none a h = cc

  check_receipt-inv :
      (manifest receipt : Object) (found : Option ReadyEvent) (at : Option (ℕ × ℕ)) (u : Unit {0})
      → check_receipt digest file_hash manifest receipt found at ≡ ok u
      → (event : ReadyEvent) × (found ≡ some event)
        × (has_values receipt (expected_receipt digest file_hash manifest event) ≡ true)
  unfolding check_receipt
  check_receipt-inv manifest receipt none at u h = cc
  check_receipt-inv manifest receipt (some event) at u h =
      let good = has_values receipt (expected_receipt digest file_hash manifest event) in
      let (_, passed, _) = >>=-eq-ok (raise_if (not good) receipt_content) _ h in
      (event, refl, raise_if-not-eq-ok receipt_content good passed)

  inventory_from-Receipted :
      (events : List ReadyEvent) (manifest : Object) (files : List ReceiptFile)
      (lines : List String)
      → inventory_from digest file_hash events manifest files ≡ ok lines
      → All (Receipted events manifest) files
  unfolding inventory_from
  inventory_from-Receipted events manifest [] lines h = tt
  inventory_from-Receipted events manifest (file ∷ rest) lines h =
      let (_, _, h) = >>=-eq-ok (raise_if (not file.is_plain) receipt_linked) _ h in
      let (receipt, content, h) = >>=-eq-ok (readable file.content) _ h in
      let (u, checked, h) =
        >>=-eq-ok
          (check_receipt digest file_hash manifest receipt (found_event events file.name) (
            coordinates_of (natural_at "first_topic_partition" receipt)
              (natural_at "first_topic_offset" receipt)))
          _ h in
      let (others, looped, _) =
        >>=-eq-ok (inventory_from digest file_hash events manifest rest) _ h in
      let (event, found, good) = check_receipt-inv manifest receipt _ _ u checked in
      (
        (event, receipt, found, readable-eq file.content receipt content, good),
        inventory_from-Receipted events manifest rest others looped,
      )

  -- What a sealed inbox guarantees.
  pub record IsSealed (root : InboxDirectory) (manifest : Object) (events : List ReadyEvent)
      : Type 0 where
    pub observed : ℕ
    pub named : root.name ≡ digest (obj (fields (restrict basis_keys manifest)))
    pub distinct : IsNodup (ready_ids events)
    pub receipted : All (Receipted events manifest) root.receipts
    pub moved : Moved manifest ("0" ∷ "1" ∷ "2" ∷ []) observed
    pub counted :
        Counted
          (lookup "broker_physical_records" manifest)
          (lookup "broker_duplicate_records" manifest)
          observed
          (length events)

  receipt_inventory-Receipted :
      (root : InboxDirectory) (manifest : Object) (s : String)
      → receipt_inventory digest file_hash root manifest ≡ ok s
      → All (Receipted root.events manifest) root.receipts
  unfolding receipt_inventory
  receipt_inventory-Receipted root manifest s h =
      let (_, _, h) = >>=-eq-ok (raise_if (not root.has_root) receipt_root) _ h in
      let (_, _, h) = >>=-eq-ok (raise_if root.identity_linked identity_linked) _ h in
      let (identity, _, h) = >>=-eq-ok (readable root.identity) _ h in
      let (_, _, h) =
        >>=-eq-ok
          (raise_if (not (same_object identity (expected_identity manifest))) identity_differs) _
          h in
      let (_, _, h) = >>=-eq-ok (raise_if (not root.has_receipts) receipts_directory) _ h in
      let files = sort by_name root.receipts in
      let (_, _, h) =
        >>=-eq-ok
          (raise_if (not (same_set (file_names files) (json_names (ready_ids root.events))))
            receipt_membership)
          _ h in
      let (lines, looped, _) =
        >>=-eq-ok (inventory_from digest file_hash root.events manifest files) _ h in
      sort-All by_name (Receipted root.events manifest) root.receipts
        (inventory_from-Receipted root.events manifest files lines looped)

  -- An inbox that is accepted is named by the digest of its identity; its ready events are
  -- distinct; each of its receipts is named for one of them and says what its envelope says; the
  -- broker's offsets of the three partitions are committed to their ends and stand for the
  -- physical records; and these are the events and the duplicates.
  pub inspect_inbox-IsSealed :
      (root : InboxDirectory) (manifest : Object) (events : List ReadyEvent)
      → inspect_inbox digest file_hash root ≡ ok (manifest, events)
      → IsSealed root manifest events
  unfolding inspect_inbox
  inspect_inbox-IsSealed root manifest events h =
      let (_, _, h) = >>=-eq-ok (raise_if (not root.is_exact) unreadable) _ h in
      let (item, _, h) = >>=-eq-ok (readable root.manifest) _ h in
      let (_, _, h) =
        >>=-eq-ok (raise_if (not (same_set (keys item) required_names)) fields_differ) _ h in
      let (_, _, h) = >>=-eq-ok (raise_if (not (is_supported item root.events)) unsupported) _ h in
      let (batch, _, h) = >>=-eq-ok (readable root.batch) _ h in
      let (_, _, h) =
        >>=-eq-ok (raise_if (not (is_of_batch digest file_hash root item batch)) batch_differs) _
          h in
      let apart = is_distinct (ready_ids root.events) in
      let (_, c1, h) = >>=-eq-ok (raise_if (not apart) duplicate_identity) _ h in
      let semantic = digest (obj (fields (restrict basis_keys item))) in
      let named = root.name == semantic && has_value "inbox_id" (text root.name) item in
      let (_, c2, h) = >>=-eq-ok (raise_if (not named) semantic_identity) _ h in
      let (inventory, taken, h) = >>=-eq-ok (receipt_inventory digest file_hash root item) _ h in
      let (_, _, h) =
        >>=-eq-ok
          (raise_if (not (has_value "receipt_inventory_sha256" (text inventory) item))
            inventory_changed)
          _ h in
      let (observed, moved, h) = >>=-eq-ok (observed_from item ("0" ∷ "1" ∷ "2" ∷ [])) _ h in
      let agree =
        counts_agree (lookup "broker_physical_records" item)
          (lookup "broker_duplicate_records" item) observed (length root.events) in
      let (_, c3, h) = >>=-eq-ok (raise_if (not agree) count_differs) _ h in
      let (same, _) =
        and-eq-true (root.name == semantic) _ (raise_if-not-eq-ok semantic_identity named c2) in
      subst (λ (p : Object × List ReadyEvent). IsSealed root p.0 p.1) (ok-eq h)
        (record {
          observed = observed;
          named = (eq_iff root.name semantic).0 same;
          distinct =
              is_distinct→IsNodup (ready_ids root.events)
                (raise_if-not-eq-ok duplicate_identity apart c1);
          receipted = receipt_inventory-Receipted root item inventory taken;
          moved = observed_from-Moved item ("0" ∷ "1" ∷ "2" ∷ []) observed moved;
          counted =
              counts_agree-Counted (lookup "broker_physical_records" item)
                (lookup "broker_duplicate_records" item) observed (length root.events)
                (raise_if-not-eq-ok count_differs agree c3);
        })
