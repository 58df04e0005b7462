-- ===== src/Field/Progress.antt =====
-- What holds of field visits over any history
-- (src/modules/field-service/services/field-service.service.ts).
use fieldserviceit_backend.Base.{
  ℕ, String, ◌≡◌, ◌≢◌, sym, ap, ◌∙◌, subst, true, none, some, List, [], ◌∷◌, arith, ◌==◌, eq_iff,
  length, take, ok, throw, Bool-cases, List-cases, Result-cases, inl, inr, Outcome, ◌▷◌,
}
use fieldserviceit_backend.Base.Map.{get, get-set, Every, Every-set}
use fieldserviceit_backend.Field.{Dispatch, FieldStore}
use fieldserviceit_backend.Field.Visits.{
  save, dispatch, update_status, update_each, bulk_update_status, unique, with_count, add_notes,
  add_signature, add_photos,
}
use fieldserviceit_backend.Field.Writes.{
  Saved, Saves, is_timely, update_status-Saved, add_notes-Saved, add_photos-Saved,
  add_signature-Saved, dispatch-Saved,
}

-- An operation for a company: a bulk update that ends in an error counts with what it has written.
pub data Step : (String → String) → String → FieldStore → FieldStore → Type 0 where
  dispatches :
      {upper : String → String} {c : String} {s s' : FieldStore}
      (id ticket_id technician_id : String)
      → get s.dispatches id ≡ none
      → dispatch id ticket_id technician_id c s ≡ ok s'
      → Step upper c s s'
  updates :
      {upper : String → String} {c : String} {s s' : FieldStore} (now : ℕ) (id status : String)
      → update_status upper now id status c s ≡ ok s'
      → Step upper c s s'
  updates_many :
      {upper : String → String} {c : String} {s s' : FieldStore} (now : ℕ) (ids : List String)
      (status : String)
      → (bulk_update_status upper now ids status c s).1 ≡ s'
      → Step upper c s s'
  notes :
      {upper : String → String} {c : String} {s s' : FieldStore} (id text : String)
      → add_notes id text c s ≡ ok s'
      → Step upper c s s'
  signs :
      {upper : String → String} {c : String} {s s' : FieldStore} (now : ℕ) (id signature : String)
      → add_signature now id signature c s ≡ ok s'
      → Step upper c s s'
  photographs :
      {upper : String → String} {c : String} {s s' : FieldStore} (id : String) (urls : List String)
      → add_photos id urls c s ≡ ok s'
      → Step upper c s s'

update_each-Saves :
    (upper : String → String) (now : ℕ) (ids : List String) (status c : String) (s : FieldStore)
    → Saves c s (update_each upper now ids status c s).1
unfolding update_each
update_each-Saves upper now [] status c s = Saves.done
update_each-Saves upper now (id ∷ ids) status c s =
    elim (Result-cases (update_status upper now id status c s)) [
      | inl (s', e) ↦
          let step : update_each upper now ids status c s'
              ≡ update_each upper now (id ∷ ids) status c s =
            ground (arith, e) in
          subst (λ (o : Outcome FieldStore (Unit {0})). Saves c s o.1) step
            (Saves.more (update_status-Saved upper now id status c s s' e)
              (update_each-Saves upper now ids status c s'))
      | inr (x, e) ↦
          let stop : (throw x, s) ≡ update_each upper now (id ∷ ids) status c s =
            ground (arith, e) in
          subst (λ (o : Outcome FieldStore (Unit {0})). Saves c s o.1) stop Saves.done
    ]

with_count-Saves :
    (c : String) (s : FieldStore) (n : ℕ) (outcome : Outcome FieldStore (Unit {0}))
    → Saves c s outcome.1
    → Saves c s (outcome ▷ with_count n).1
with_count-Saves c s n (ok done, s') saves = saves
with_count-Saves c s n (throw e, s') saves = saves

bulk_update_status-Saves :
    (upper : String → String) (now : ℕ) (ids : List String) (status c : String) (s : FieldStore)
    → Saves c s (bulk_update_status upper now ids status c s).1
unfolding bulk_update_status
bulk_update_status-Saves upper now ids status c s = elim (List-cases (take 100 (unique ids))) [
  | inl e ↦ rw (bulk_update_status, e) Saves.done
  | inr (id, rest, e) ↦
      let all = update_each-Saves upper now (id ∷ rest) status c s in
      rw (bulk_update_status, e)
        (with_count-Saves c s (length (id ∷ rest)) (update_each upper now (id ∷ rest) status c s)
          all)
]

Step-Saves :
    (upper : String → String) (c : String) (s s' : FieldStore) → Step upper c s s' → Saves c s s'
Step-Saves upper c s s' (Step.dispatches id t u fresh h) =
    Saves.more (dispatch-Saved id t u c s s' fresh h) Saves.done
Step-Saves upper c s s' (Step.updates now id status h) =
    Saves.more (update_status-Saved upper now id status c s s' h) Saves.done
Step-Saves upper c s s' (Step.updates_many now ids status h) =
    subst (Saves c s) h (bulk_update_status-Saves upper now ids status c s)
Step-Saves upper c s s' (Step.notes id text h) =
    Saves.more (add_notes-Saved id text c s s' h) Saves.done
Step-Saves upper c s s' (Step.signs now id signature h) =
    Saves.more (add_signature-Saved now id signature c s s' h) Saves.done
Step-Saves upper c s s' (Step.photographs id urls h) =
    Saves.more (add_photos-Saved id c urls s s' h) Saves.done

Saves-timely :
    (c : String) (s s' : FieldStore)
    → Saves c s s'
    → Every is_timely s.dispatches
    → Every is_timely s'.dispatches
Saves-timely c s _ Saves.done all = all
Saves-timely c s s' (Saves.more (Saved.inserted id row fresh timely) saves) all =
    Saves-timely c (save id row s) s' saves (Every-set is_timely s.dispatches id row timely all)
Saves-timely c s s' (Saves.more (Saved.changed id row row' found own keeps) saves) all =
    Saves-timely c (save id row' s) s' saves
      (Every-set is_timely s.dispatches id row' (keeps (all id row found)) all)

-- The operations for any companies, from a service without visits.
pub data Reach (upper : String → String) (start : FieldStore) : FieldStore → Type 0 where
  here : start.dispatches ≡ [] → Reach upper start start
  next :
      {s s' : FieldStore} (c : String)
      → Reach upper start s
      → Step upper c s s'
      → Reach upper start s'

-- After any history of successful operations, and of bulk updates whether they succeed or not, from a
-- service without visits, every visit has one of the five statuses, one that is ON_SITE a time of
-- arrival and one that is COMPLETED a time of completion.
pub Reach-is_timely :
    (upper : String → String) (start s : FieldStore) (id : String) (row : Dispatch)
    → Reach upper start s
    → get s.dispatches id ≡ some row
    → is_timely row ≡ true
unfolding get
Reach-is_timely upper start s id row (Reach.here fresh) found =
    let nothing : get s.dispatches id ≡ none = ap (λ m. get m id) fresh in
    let both = sym nothing ∙ found in absurd (cc)
Reach-is_timely upper start s' id row (Reach.next c before step) found =
    Saves-timely c _ s' (Step-Saves upper c _ s' step)
      (λ j r h. Reach-is_timely upper start _ j r before h) id row found

Saves-other :
    (c j : String) (other : Dispatch) (s s' : FieldStore)
    → Saves c s s'
    → get s.dispatches j ≡ some other
    → other.company_id ≢ c
    → get s'.dispatches j ≡ some other
Saves-other c j other s _ Saves.done theirs apart = theirs
Saves-other c j other s s' (Saves.more (Saved.inserted id row fresh timely) saves) theirs apart =
    Saves-other c j other (save id row s) s' saves
      (elim (Bool-cases (id == j)) [
        | inl e ↦
            let both = sym fresh ∙ ap (λ k. get s.dispatches k) ((eq_iff id j).0 e) ∙ theirs in
            absurd (cc)
        | inr e ↦ ground (arith, get-set s.dispatches id j row, e, theirs)
      ])
      apart
Saves-other c j other s s' (Saves.more (Saved.changed id row row' found own keeps) saves) theirs
      apart =
    Saves-other c j other (save id row' s) s' saves
      (elim (Bool-cases (id == j)) [
        | inl e ↦
            let both = sym found ∙ ap (λ k. get s.dispatches k) ((eq_iff id j).0 e) ∙ theirs in
            let same : row ≡ other = cc in
            absurd (apart (ap (λ (r : Dispatch). r.company_id) (sym same) ∙ own))
        | inr e ↦ ground (arith, get-set s.dispatches id j row', e, theirs)
      ])
      apart

-- An operation for a company leaves every visit of another company as it is.
pub Step-other_company_visit :
    (upper : String → String) (c j : String) (other : Dispatch) (s s' : FieldStore)
    → Step upper c s s'
    → get s.dispatches j ≡ some other
    → other.company_id ≢ c
    → get s'.dispatches j ≡ some other
Step-other_company_visit upper c j other s s' step theirs apart =
    Saves-other c j other s s' (Step-Saves upper c s s' step) theirs apart
