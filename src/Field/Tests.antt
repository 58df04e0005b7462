-- ===== src/Field/Tests.antt =====
-- Small boards on which the properties apply.
use fieldserviceit_backend.Base.{String, ◌≡◌, ◌≢◌, refl, ap, true, false, none, some, [], ◌∷◌, ◌==◌}
use fieldserviceit_backend.Base.Map.{get, set}
use fieldserviceit_backend.Field.{Dispatch, FieldStore}
use fieldserviceit_backend.Field.Visits.{
  save, with_status, is_ticket_of, is_technician_of, dispatch, find_dispatch, update_status,
  update_each, bulk_update_status, unique,
}
use fieldserviceit_backend.Field.Writes.{is_timely}
use fieldserviceit_backend.Field.Progress.{Step, Reach, Reach-is_timely, Step-other_company_visit}

abbrev same : String → String
same s = s

abbrev start : FieldStore
start = record {
  tickets = ("t1", record { company_id = some "c1" }) ∷ [];
  staff =
      (
        "ana",
        record { company_id = some "c1"; role = "TECHNICIAN"; is_active = true; deleted_at = none },
      )
      ∷ [];
  dispatches = [];
  sent = [];
}

abbrev visit : Dispatch
visit = record {
  ticket_id = "t1";
  technician_id = "ana";
  company_id = "c1";
  status = "DISPATCHED";
  notes = none;
  customer_signature = none;
  photo_urls = [];
  arrived_at = none;
  completed_at = none;
}

abbrev sent_out : FieldStore
sent_out = save "d1" visit start

-- The second id is not there: what was written for the first stays.
abbrev half_done : FieldStore
half_done = save "d1" (with_status 5 "ON_SITE" visit) sent_out

sends : Step same "c1" start sent_out
unfolding dispatch is_ticket_of is_technician_of get set
sends = Step.dispatches "d1" "t1" "ana" refl refl

arrives : Step same "c1" sent_out half_done
unfolding bulk_update_status update_each update_status find_dispatch unique get set
arrives = Step.updates_many 5 ("d1" ∷ "d2" ∷ []) "ON_SITE" refl

Reach-is_timely_example : is_timely (with_status 5 "ON_SITE" visit) ≡ true
unfolding get set
Reach-is_timely_example =
    Reach-is_timely same start half_done "d1" (with_status 5 "ON_SITE" visit)
      (Reach.next "c1" (Reach.next "c1" (Reach.here refl) sends) arrives) refl

abbrev foreign : Dispatch
foreign = record visit { company_id = "c2" }

abbrev shared : FieldStore
shared = save "d2" foreign sent_out

apart : foreign.company_id ≢ "c1"
apart e = let differ : false ≡ true = ap (λ s. s == "c1") e in cc

Step-other_company_visit_example :
    get (bulk_update_status same 5 ("d1" ∷ "d2" ∷ []) "ON_SITE" "c1" shared).1.dispatches "d2"
    ≡ some foreign
unfolding get set
Step-other_company_visit_example =
    Step-other_company_visit same "c1" "d2" foreign shared
      (bulk_update_status same 5 ("d1" ∷ "d2" ∷ []) "ON_SITE" "c1" shared).1
      (Step.updates_many 5 ("d1" ∷ "d2" ∷ []) "ON_SITE" refl) refl apart
