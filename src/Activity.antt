-- ===== src/Activity.antt =====
-- src/observability/activity.ts: the activity log, newest entry first. The optional sink is told
-- without waiting, and its failures are dropped; it is not modelled.
use hubspot_salesforce_conne.Prelude.{
  ℕ, ◌+◌, ◌-◌, ◌≤◌, min, String, ◌≡◌, List, [], ◌∷◌, length, take, ltb, if◌then◌else◌, arith,
  length-take,
}
use hubspot_salesforce_conne.Prelude.Time.{Timestamp, stamp}

pub data ActivityKind : Type 0 where
  migrate sync echo_suppressed conflict delete association error info : ActivityKind

pub record ActivityEntry : Type 0 where
  pub at : Timestamp
  pub kind : ActivityKind
  pub message : String

pub record Stats : Type 0 where
  pub migrated : ℕ
  pub synced : ℕ
  pub echoes_suppressed : ℕ
  pub conflicts : ℕ

pub record ActivityLog : Type 0 where
  pub buf : List ActivityEntry
  pub stats : Stats

abbrev pub empty_log : ActivityLog
empty_log = record {
  buf = [];
  stats = record { migrated = 0; synced = 0; echoes_suppressed = 0; conflicts = 0 };
}

count_kind : ActivityKind → Stats → Stats
count_kind sync s = record s { synced = s.synced + 1 }
count_kind echo_suppressed s = record s { echoes_suppressed = s.echoes_suppressed + 1 }
count_kind conflict s = record s { conflicts = s.conflicts + 1 }
count_kind _ s = s

-- `buf.pop()` if there are more than 200 entries
abbrev pop_over : List ActivityEntry → List ActivityEntry
pop_over buf = if ltb 200 (length buf) then take (length buf - 1) buf else buf

unfoldable pub log : ℕ → ActivityKind → String → ActivityLog → ActivityLog
unfolding count_kind
log now kind message a = record {
  buf = pop_over (record { at = stamp now; kind = kind; message = message } ∷ a.buf);
  stats = count_kind kind a.stats;
}

unfoldable pub inc_migrated : ℕ → ActivityLog → ActivityLog
inc_migrated n a = record a { stats = record a.stats { migrated = a.stats.migrated + n } }

unfoldable pub recent : ℕ → ActivityLog → List ActivityEntry
recent n a = take n a.buf

-- The log never holds more than 200 entries, and below that it forgets none.
pub length-log :
    (now : ℕ) (kind : ActivityKind) (message : String) (a : ActivityLog)
    → length a.buf ≤ 200
    → length (log now kind message a).buf ≡ min 200 (length a.buf + 1)
unfolding log
length-log now kind message a h = ground (
  arith,
  length-take (length a.buf) (record { at = stamp now; kind = kind; message = message } ∷ a.buf),
)
