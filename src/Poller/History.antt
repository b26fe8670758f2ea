-- ===== src/Poller/History.antt =====
-- src/engine/syncPoller.ts: the history of an object's polls.
use hubspot_salesforce_conne.Prelude.{
  ℕ, ◌≤◌, String, false, not, ◌≡◌, refl, Option, none, some, List, [], ◌∷◌, ◌==◌, arith, contains,
  keep, take, length, length-take, get_or, map_option, Bool-cases, inl, inr, some_inj, eq_refl,
}
use mathlib.Core.Path.{subst}
use hubspot_salesforce_conne.Prelude.Dict.{lookup, lookup-insert}
use hubspot_salesforce_conne.Failure.{Patterns}
use hubspot_salesforce_conne.Poller.{Services, State, SyncPollerSummary}
use hubspot_salesforce_conne.Poller.Object.{
  history_limit, finish_poll, finished, poll_both, poll_object, last_run, history,
}

abbrev pub head : List SyncPollerSummary → Option SyncPollerSummary
head [] = none
head (x ∷ xs) = some x

-- the last run of every object is the newest of its history, which has 20 entries at most
abbrev pub IsKept : {W : Type 0} → State W → Type 0
IsKept s =
    (t : String) → (length (history t s) ≤ history_limit) × (last_run t s ≡ head (history t s))

contains-keep :
    (type : String) (types : List String)
    → contains type (keep (λ t. not (t == type)) types) ≡ false
contains-keep type [] = refl
contains-keep type (t ∷ types) = ground (arith, contains-keep type types)

module _ {W : Type 0} (v : Services W) (patterns : Patterns) (now : ℕ) (type : String) where
  finish_poll-IsKept :
      (summary : SyncPollerSummary) (s : State W)
      → IsKept s
      → IsKept (finish_poll v patterns now type summary s)
  unfolding finish_poll history last_run
  finish_poll-IsKept summary s h t = elim (Bool-cases (type == t)) [
    | inl same ↦
        let entries = summary ∷ get_or (lookup type s.history_by_type) [] in
        (
          ground (
            arith,
            same,
            lookup-insert type t (take history_limit entries) s.history_by_type,
            length-take history_limit entries,
          ),
          ground (
            arith,
            same,
            lookup-insert type t (take history_limit entries) s.history_by_type,
            lookup-insert type t summary s.last_run_by_type,
          ),
        )
    | inr different ↦
        let entries = summary ∷ get_or (lookup type s.history_by_type) [] in
        (
          ground (
            arith,
            h t,
            different,
            lookup-insert type t (take history_limit entries) s.history_by_type,
          ),
          ground (
            arith,
            h t,
            different,
            lookup-insert type t (take history_limit entries) s.history_by_type,
            lookup-insert type t summary s.last_run_by_type,
          ),
        )
  ]

  finish_poll_lem :
      (summary : SyncPollerSummary) (s : State W)
      → (contains type (finish_poll v patterns now type summary s).running_types ≡ false)
        × (history type (finish_poll v patterns now type summary s)
            ≡ take history_limit (summary ∷ history type s))
  unfolding finish_poll history
  finish_poll_lem summary s =
      let entries = summary ∷ get_or (lookup type s.history_by_type) [] in
      (
        contains-keep type s.running_types,
        ground (
          arith,
          lookup-insert type type (take history_limit entries) s.history_by_type,
          eq_refl type,
        ),
      )

  -- After a poll the last run of every object is still the newest of its history, which has no
  -- more than 20 entries. Unless the object was being polled already, the poll puts its summary in
  -- front of the object's history, and the object is no longer being polled, whatever failed.
  pub poll_object-IsKept :
      (fuel : ℕ) (s s' : State W) (summary : SyncPollerSummary)
      → poll_object v patterns now type fuel s ≡ some (summary, s')
      → IsKept s
      → IsKept s'
        × (contains type s.running_types ≡ false
            → (contains type s'.running_types ≡ false)
              × (history type s' ≡ take history_limit (summary ∷ history type s)))
  unfolding poll_object finished history last_run
  poll_object-IsKept fuel s s' summary h k = elim (Bool-cases (contains type s.running_types)) [
    | inl busy ↦
        let same : s ≡ s' = ground (arith, h, busy) in
        (subst IsKept same k, λ free. absurd (ground (arith, busy, free)))
    | inr free ↦ polled (poll_both v patterns now type fuel s.world) (ground (arith, h, free))
  ]
    where
      begun : State W
      begun = record s { running_types = type ∷ s.running_types }

      Kept : State W → SyncPollerSummary → Type 0
      Kept t given =
          IsKept t
          × (contains type s.running_types ≡ false
              → (contains type t.running_types ≡ false)
                × (history type t ≡ take history_limit (given ∷ history type s)))

      polled :
          (r : Option (SyncPollerSummary × W))
          → map_option (finished v patterns now type begun) r ≡ some (summary, s')
          → Kept s' summary
      polled none g = absurd (ground (arith, g))
      polled (some (given, w)) g =
          let after = finish_poll v patterns now type given (record begun { world = w }) in
          let same : (given, after) ≡ (summary, s') = some_inj g in
          subst (λ (x : SyncPollerSummary × State W). Kept x.1 x.0) same
            (
              finish_poll-IsKept given (record begun { world = w }) k,
              λ free. finish_poll_lem given (record begun { world = w }),
            )
