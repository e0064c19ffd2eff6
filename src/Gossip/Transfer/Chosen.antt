-- ===== src/Gossip/Transfer/Chosen.antt =====
-- The objects of the scheduler's plan, src/aethos_core/gossip_sync.rs.
use mathlib.Core.List.{Mem, mem-cons_self, mem-cons_of_mem}
use aethos_linux.Base.{
  ℕ, ◌+◌, ◌≡◌, refl, subst, min, All, All-map_weaken, sym, ap, ◌∙◌, inl, inr, List, [], ◌∷◌, Option,
  some, map, saturating_add, Bool-cases, Option-cases,
}
use aethos_linux.Base.Text.{Text, text_eq, text_eq_iff}
use aethos_linux.Base.Result.{Result, ok, err, ◌>>=◌, >>=-eq-ok}
use aethos_linux.Base.Assoc.{lookup, insert, lookup-insert_same, lookup-insert_other}
use aethos_linux.Store.Types.{StoredItemRecord}
use aethos_linux.Envelope.Build.{Crates}
use aethos_linux.Scheduler.Float.{FloatOps}
use aethos_linux.Scheduler.Types.{RankedCargoItem, SchedulerError, EncounterSchedulerResult}
use aethos_linux.Gossip.Types.{TransferObject}
use aethos_linux.Gossip.Transfer.{
  Profile, SchedulerTransferPlan, shadow_profile_from_stored, transfer_object, profiles_of,
  profile_map, schedule_transfer_candidates, select_objects, build_scheduler_transfer_plan,
}

abbrev chosen_of : {A : Type 0} → A → Result Text A → A
chosen_of default (ok chosen) = chosen
chosen_of default (err e) = default

-- The object that a stored item is sent as: one hop further, up to the largest u16.
abbrev pub sent_object : StoredItemRecord → TransferObject
sent_object stored = record {
  item_id = stored.item_id;
  envelope_b64 = stored.envelope_b64;
  expiry_unix_ms = stored.expiry_unix_ms;
  hop_count = min (stored.hop_count + 1) 65_535;
}

-- One object for each ranked item, in this order: a candidate with the item's identifier as it is
-- sent.
abbrev pub AreSent :
    {F : Type 0} → List StoredItemRecord → List TransferObject → List (RankedCargoItem F) → Type 0
AreSent candidates [] [] = Unit
AreSent candidates [] (r ∷ ranked) = ⊥
AreSent candidates (object ∷ objects) [] = ⊥
AreSent candidates (object ∷ objects) (r ∷ ranked) =
    ((stored : StoredItemRecord) × Mem stored candidates
      × (stored.item_id ≡ r.cargo_item.item_id)
      × (object ≡ sent_object stored))
    × AreSent candidates objects ranked

All-Mem : {A : Type 0} (xs : List A) → All (λ x. Mem x xs) xs
All-Mem [] = tt
All-Mem (x ∷ xs) = (
  mem-cons_self,
  All-map_weaken (λ y. Mem y xs) (λ y. Mem y (x ∷ xs)) (λ y. mem-cons_of_mem x) xs (All-Mem xs),
)

module _ {F : Type 0} (fl : FloatOps F) (crates : Crates) where
  -- Under each key stands a profile of a candidate with that identifier.
  abbrev AreKeyed : List StoredItemRecord → List (Text × Profile fl crates) → Type 0
  AreKeyed candidates profiles =
      (k : Text) (profile : Profile fl crates)
      → lookup k profiles ≡ some profile
      → (profile.0.item_id ≡ k) × Mem profile.0 candidates

  profile_map-AreKeyed :
      (candidates : List StoredItemRecord) (profiles : List (Text × Profile fl crates))
      (rest : List (Profile fl crates))
      → AreKeyed candidates profiles
      → All (λ profile. Mem profile.0 candidates) rest
      → AreKeyed candidates (profile_map fl crates profiles rest)
  unfolding profile_map
  profile_map-AreKeyed candidates profiles [] keyed known = keyed
  profile_map-AreKeyed candidates profiles (profile ∷ rest) keyed (here, known) =
      profile_map-AreKeyed candidates (insert profile.0.item_id profile profiles) rest
        (λ k found is. elim (Bool-cases (text_eq profile.0.item_id k)) [
          | inl same ↦
              let key = (text_eq_iff profile.0.item_id k).0 same in
              subst (λ p. (p.0.item_id ≡ k) × Mem p.0 candidates)
                (some_injective (
                  sym (
                    ap (λ z. lookup z (insert profile.0.item_id profile profiles)) (sym key)
                    ∙ lookup-insert_same profile.0.item_id profile profiles)
                  ∙ is))
                (key, here)
          | inr differs ↦
              keyed k found
                (sym (lookup-insert_other profile.0.item_id k profile profiles differs) ∙ is)
        ])
        known
    where
      some_injective :
          {a b : Profile fl crates} → ◌≡◌ {A = Option (Profile fl crates)} (some a) (some b) → a ≡ b
      some_injective e = cc

  -- Each profile is one of a candidate.
  profiles_of-Mem :
      (candidates : List StoredItemRecord) (now_ms : ℕ) (peer : Option Text)
      (rest : List StoredItemRecord) (profiles : List (Profile fl crates))
      → All (λ candidate. Mem candidate candidates) rest
      → profiles_of fl crates rest now_ms peer ≡ ok profiles
      → All (λ profile. Mem profile.0 candidates) profiles
  unfolding profiles_of
  profiles_of-Mem candidates now_ms peer [] profiles known h =
      subst (All (λ profile. Mem profile.0 candidates)) (ap (chosen_of []) h) tt
  profiles_of-Mem candidates now_ms peer (candidate ∷ rest) profiles (here, known) h =
      let first =
        >>=-eq-ok (shadow_profile_from_stored fl crates candidate now_ms peer)
          (λ profile.
            profiles_of fl crates rest now_ms peer >>= λ more. ok ((candidate, profile) ∷ more))
          h in
      let later =
        >>=-eq-ok (profiles_of fl crates rest now_ms peer)
          (λ more. ok ((candidate, first.0) ∷ more)) first.2 in
      subst (All (λ profile. Mem profile.0 candidates)) (ap (chosen_of []) later.2)
        (here, profiles_of-Mem candidates now_ms peer rest later.0 known later.1)

  select_objects-AreSent :
      (candidates : List StoredItemRecord) (profiles : List (Text × Profile fl crates))
      (consumed : ℕ) (ranked : List (RankedCargoItem F)) (chosen : List TransferObject × ℕ)
      → AreKeyed candidates profiles
      → select_objects fl crates profiles consumed ranked ≡ ok chosen
      → AreSent candidates chosen.0 ranked
  unfolding select_objects transfer_object
  select_objects-AreSent candidates profiles consumed [] chosen keyed h =
      subst (λ c. AreSent {F = F} candidates c.0 []) (ap (chosen_of ([], 0)) h) tt
  select_objects-AreSent candidates profiles consumed (r ∷ ranked) chosen keyed h =
      elim (Option-cases (lookup r.cargo_item.item_id profiles)) [
        | inl unknown ↦ cc (rw (unknown, select_objects) at h)
        | inr (profile, known) ↦
            let rest =
              >>=-eq-ok
                (select_objects fl crates profiles (saturating_add consumed profile.1.0) ranked)
                (λ done. ok (transfer_object profile.0 ∷ done.0, done.1))
                (rw (known, select_objects) at h) in
            let of = keyed r.cargo_item.item_id profile known in
            subst (λ c. AreSent candidates c.0 (r ∷ ranked)) (ap (chosen_of ([], 0)) rest.2)
              (
                (profile.0, of.1, of.0, refl),
                select_objects-AreSent candidates profiles (saturating_add consumed profile.1.0)
                    ranked rest.0 keyed rest.1,
              )
      ]

  -- The objects of a plan are, one for each item of the scheduler's selected prefix and in its
  -- order, a candidate with the item's identifier, sent with its envelope and expiry as they are
  -- stored and with one hop more, up to 65535.
  pub build_scheduler_transfer_plan-selected_prefix :
      (error_text : SchedulerError → Text) (candidates : List StoredItemRecord)
      (max_items max_bytes now_ms : ℕ) (peer : Option Text) (plan : SchedulerTransferPlan F)
      → build_scheduler_transfer_plan fl crates error_text candidates max_items max_bytes now_ms
          peer
        ≡ ok plan
      → AreSent candidates plan.selected plan.result.selected_prefix
  unfolding build_scheduler_transfer_plan
  build_scheduler_transfer_plan-selected_prefix error_text candidates max_items max_bytes now_ms
        peer plan h =
      let schedule_of : List (Profile fl crates) → Result Text (EncounterSchedulerResult F) =
        λ profiles.
          schedule_transfer_candidates fl crates error_text max_items max_bytes now_ms
            (map (λ profile. profile.1.1) profiles) in
      let choose : List (Profile fl crates)
          → EncounterSchedulerResult F
          → Result Text (List TransferObject × ℕ) =
        λ profiles result.
          select_objects fl crates (profile_map fl crates [] profiles) 0 result.selected_prefix in
      let made : EncounterSchedulerResult F → List TransferObject × ℕ → SchedulerTransferPlan F =
        λ result chosen. record {
          selected = chosen.0;
          consumed_bytes = chosen.1;
          result = result;
        } in
      let profiles =
        >>=-eq-ok (profiles_of fl crates candidates now_ms peer)
          (λ ps.
            schedule_of ps >>= λ result. choose ps result >>= λ chosen. ok (made result chosen))
          h in
      let result =
        >>=-eq-ok (schedule_of profiles.0)
          (λ result. choose profiles.0 result >>= λ chosen. ok (made result chosen)) profiles.2 in
      let chosen =
        >>=-eq-ok (choose profiles.0 result.0) (λ chosen. ok (made result.0 chosen)) result.2 in
      subst (λ p. AreSent candidates p.selected p.result.selected_prefix) (ok_injective chosen.2)
        (select_objects-AreSent candidates (profile_map fl crates [] profiles.0) 0
          result.0.selected_prefix chosen.0
          (profile_map-AreKeyed candidates [] profiles.0 (λ k p is. cc is)
            (profiles_of-Mem candidates now_ms peer candidates profiles.0 (All-Mem candidates)
              profiles.1))
          chosen.1)
    where
      ok_injective :
          {a b : SchedulerTransferPlan F}
          → ◌≡◌ {A = Result Text (SchedulerTransferPlan F)} (ok a) (ok b)
          → a ≡ b
      ok_injective e = cc
