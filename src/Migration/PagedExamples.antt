-- ===== src/Migration/PagedExamples.antt =====
-- src/engine/migrationEngine.ts: a source that lists three contacts in pages of one, as the mock
-- connector pages by offsets, and the theorem on the end of a run at it.
use hubspot_salesforce_conne.Prelude.{
  ℕ, zero, suc, ◌+◌, ◌-◌, ◌<◌, String, true, false, ◌≡◌, refl, some_inj, Option, none, some, List,
  [], ◌∷◌, ◌==◌, take, drop, length, ltb, is_some, arith, if◌then◌else◌,
}
use mathlib.Core.Path.{subst}
use hubspot_salesforce_conne.Prelude.Time.{nat_text}
use hubspot_salesforce_conne.Types.{CanonicalRecord}
use hubspot_salesforce_conne.Exec.{Exec, ok}
use hubspot_salesforce_conne.MigrationStore.{MigrationStore}
use hubspot_salesforce_conne.Migration.{Services, MigrationOptions, RecordPage}
use hubspot_salesforce_conne.Migration.Runs.{run}
use hubspot_salesforce_conne.Migration.Ends.{run_ends}
use hubspot_salesforce_conne.Migration.Examples.{State, services, options, patterns, start, contact}

-- the state of the engine, with the contacts of the source
abbrev World : Type 0
World = State × List CanonicalRecord

abbrev beside : {A : Type 0} → Exec State A → Exec World A
beside m (s, contacts) = let (r, t) = m s in (r, (t, contacts))

abbrev offset : Option String → ℕ
offset none = 0
offset (some cursor) = if cursor == "1" then 1 else if cursor == "2" then 2 else 3

abbrev page_at : ℕ → List CanonicalRecord → RecordPage
page_at n contacts = record {
  records = take 1 (drop n contacts);
  next_cursor = if ltb (n + 1) (length contacts) then some (nat_text (n + 1)) else none;
}

abbrev store : MigrationStore World
store = record {
  begin = λ input. beside (services.store.begin input);
  record_plan = λ id plan. beside (services.store.record_plan id plan);
  complete = λ id report. beside (services.store.complete id report);
  fail = λ id message. beside (services.store.fail id message);
  list = λ limit. beside (services.store.list limit);
  plans = λ id limit. beside (services.store.plans id limit);
}

abbrev paged : Services World
paged = record {
  list = λ system type cursor w. (ok (page_at (offset cursor) w.1), w);
  read = λ system type id. beside (services.read system type id);
  preview = λ r. beside (services.preview r);
  reconcile = λ r. beside (services.reconcile r);
  store = store;
  on_activity = λ f w. (services.on_activity f w.0, w.1);
}

abbrev executed_options : MigrationOptions
executed_options = record options { limit_per_type = none; dry_run = false }

abbrev three : List CanonicalRecord
three = contact ∷ contact ∷ contact ∷ []

-- the source is not written
abbrev IsSame : World → Type 0
IsSame w = w.1 ≡ three

abbrev left : Option String → ℕ
left cursor = 3 - offset cursor

advances :
    (n : ℕ) (c : String) → (page_at n three).next_cursor ≡ some c → 3 - offset (some c) < 3 - n
unfolding nat_text
advances zero c h = ground (arith, h)
advances (suc zero) c h = subst (λ (x : String). 3 - offset (some x) < 2) (some_inj h) (omega arith)
advances (suc (suc n)) c h = absurd (ground (arith, h))

pages_end :
    (type c : String) (cursor : Option String) (w w' : World) (page : RecordPage)
    → IsSame w
    → paged.list executed_options.from type cursor w ≡ (ok page, w')
    → page.next_cursor ≡ some c
    → left (some c) < left cursor
pages_end type c cursor w w' page same read next = advances (offset cursor) c (
    subst
      (λ (contacts : List CanonicalRecord). (page_at (offset cursor) contacts).next_cursor ≡ some c)
      same (ground (arith, read, next)))

run_ends_example : is_some (run paged patterns 2000 executed_options 4 (start, three)) ≡ true
run_ends_example =
    run_ends paged patterns 2000 executed_options IsSame (λ r w h. h) (λ r w h. h)
      (λ id plan w h. h) (λ type cursor w h. h) left pages_end 4 (start, three) (omega arith) refl
