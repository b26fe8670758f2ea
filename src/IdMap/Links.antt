-- ===== src/IdMap/Links.antt =====
-- src/core/idMap.ts: what the indexes of the store find.
use hubspot_salesforce_conne.Prelude.{
  ℕ, String, Bool, true, false, not, ◌≡◌, ◌≢◌, ◌&&◌, Option, none, some, List, [], ◌∷◌, ◌==◌,
  eq_iff, arith, if◌then◌else◌, contains, get_or, ap, sym, ◌∙◌, Option-cases, Bool-cases, inl, inr,
}
use Prim.Native.String
use text.Mathlib.TextLemmas.{
  append_cancel_left, append_cancel_right, cons-append, head-eq_of_cons-eq,
}
use Prim.Native.Char.{code}
use hubspot_salesforce_conne.Prelude.Dict.{Dict, lookup, insert, lookup-insert}
use hubspot_salesforce_conne.Prelude.Time.{stamp}
use hubspot_salesforce_conne.Types.{SystemId, salesforce, hubspot, of_system, system_eq}
use hubspot_salesforce_conne.IdMap.{
  Link, Store, source_key, natural_index_key, by_source, by_natural_key, index_source, index_keys,
  index_link, upsert_link, link_of,
}

-- the link names this record of this system
abbrev pub names : Link → SystemId → String → Bool
names link system id = elim (of_system system link.ids) [
  | none ↦ false
  | some i ↦ not (i == "") && i == id
]

tail_eq :
    (p q a b : String) → String.◌++◌ p (String.◌++◌ q a) ≡ String.◌++◌ p (String.◌++◌ q b) → a ≡ b
tail_eq p q a b h =
    append_cancel_left q a b (append_cancel_left p (String.◌++◌ q a) (String.◌++◌ q b) h)

source_key_inj :
    (system : SystemId) (a b : String) → source_key system a ≡ source_key system b → a ≡ b
source_key_inj salesforce a b h = append_cancel_right a b "" (tail_eq "salesforce" ":" _ _ h)
source_key_inj hubspot a b h = append_cancel_right a b "" (tail_eq "hubspot" ":" _ _ h)

source_key-eq :
    (system : SystemId) (a b : String) → (source_key system a == source_key system b) ≡ (a == b)
source_key-eq system a b = ground (
  arith,
  eq_iff a b,
  eq_iff (source_key system a) (source_key system b),
  source_key_inj system a b,
)

other_head : (a b : String) → source_key salesforce a ≢ source_key hubspot b
other_head a b h =
    let first = head-eq_of_cons-eq (
      sym (cons-append "s" "alesforce" (String.◌++◌ ":" (String.◌++◌ a "")))
      ∙ h
      ∙ cons-append "h" "ubspot" (String.◌++◌ ":" (String.◌++◌ b ""))) in
    absurd (omega (arith, ap code first))

other_system :
    (a b : String)
    → ((source_key salesforce a == source_key hubspot b) ≡ false)
      × ((source_key hubspot b == source_key salesforce a) ≡ false)
other_system a b = ground (
  arith,
  other_head a b,
  eq_iff (source_key salesforce a) (source_key hubspot b),
  eq_iff (source_key hubspot b) (source_key salesforce a),
)

index_source_lem :
    (at system : SystemId) (ids : Option String) (cid id : String) (index : Dict String)
    → lookup (source_key system id) (index_source at ids cid index) ≡ (
        if system_eq at system && elim ids [ none ↦ false | some i ↦ not (i == "") && i == id ]
        then some cid
        else lookup (source_key system id) index)
unfolding index_source
index_source_lem at system none cid id index = ground arith
index_source_lem salesforce salesforce (some i) cid id index = ground (
  arith,
  lookup-insert (source_key salesforce i) (source_key salesforce id) cid index,
  source_key-eq salesforce i id,
)
index_source_lem hubspot hubspot (some i) cid id index = ground (
  arith,
  lookup-insert (source_key hubspot i) (source_key hubspot id) cid index,
  source_key-eq hubspot i id,
)
index_source_lem salesforce hubspot (some i) cid id index = ground (
  arith,
  lookup-insert (source_key salesforce i) (source_key hubspot id) cid index,
  other_system i id,
)
index_source_lem hubspot salesforce (some i) cid id index = ground (
  arith,
  lookup-insert (source_key hubspot i) (source_key salesforce id) cid index,
  other_system id i,
)

source_index-upsert_link :
    (now : ℕ) (link : Link) (s : Store) (system : SystemId) (id : String)
    → lookup (source_key system id) (upsert_link now link s).source_index ≡ (
        if names link system id
        then some link.canonical_id
        else lookup (source_key system id) s.source_index)
unfolding upsert_link index_link
source_index-upsert_link now link s salesforce id = ground (
  arith,
  index_source_lem hubspot salesforce link.ids.hs link.canonical_id id
      (index_source salesforce link.ids.sf link.canonical_id s.source_index),
  index_source_lem salesforce salesforce link.ids.sf link.canonical_id id s.source_index,
)
source_index-upsert_link now link s hubspot id = ground (
  arith,
  index_source_lem hubspot hubspot link.ids.hs link.canonical_id id
      (index_source salesforce link.ids.sf link.canonical_id s.source_index),
  index_source_lem salesforce hubspot link.ids.sf link.canonical_id id s.source_index,
)

-- After a link is stored, each record that it names is found under its system and id, and what is
-- found is that link with the time of the call.
pub by_source-upsert_link :
    (now : ℕ) (link : Link) (s : Store) (system : SystemId) (id : String)
    → (link.canonical_id == "") ≡ false
    → names link system id ≡ true
    → by_source system id (upsert_link now link s) ≡ some (record link { updated_at = stamp now })
unfolding by_source upsert_link index_link
by_source-upsert_link now link s system id h n = ground (
  arith,
  h,
  n,
  source_index-upsert_link now link s system id,
  eq_iff link.canonical_id link.canonical_id,
  lookup-insert link.canonical_id link.canonical_id (record link { updated_at = stamp now })
      s.links,
)

links-upsert_link :
    (now : ℕ) (link : Link) (s : Store) (cid : String)
    → cid ≢ link.canonical_id
    → link_of (some cid) (upsert_link now link s) ≡ link_of (some cid) s
unfolding upsert_link index_link
links-upsert_link now link s cid other = ground (
  arith,
  other,
  eq_iff link.canonical_id cid,
  lookup-insert link.canonical_id cid (record link { updated_at = stamp now }) s.links,
)

-- Storing a link does not change what is found for a record that it does not name, unless that
-- record is indexed under the same canonical id.
pub by_source-upsert_link_other :
    (now : ℕ) (link : Link) (s : Store) (system : SystemId) (id : String)
    → names link system id ≡ false
    → lookup (source_key system id) s.source_index ≢ some link.canonical_id
    → by_source system id (upsert_link now link s) ≡ by_source system id s
unfolding by_source
by_source-upsert_link_other now link s system id n other =
    elim (Option-cases (lookup (source_key system id) s.source_index)) [
      | inl e ↦ ground (arith, n, e, source_index-upsert_link now link s system id)
      | inr (cid, e) ↦ ground (
        arith,
        n,
        e,
        source_index-upsert_link now link s system id,
        links-upsert_link now link s cid (λ same. other (e ∙ ap some same)),
      )
    ]

-- an entry that is there stays, or is set to the same id again
kept :
    (type key cid : String) (keys : List String) (index : Dict String)
    → lookup (natural_index_key type key) index ≡ some cid
    → lookup (natural_index_key type key) (index_keys type keys cid index) ≡ some cid
unfolding index_keys
kept type key cid [] index h = h
kept type key cid (j ∷ keys) index h =
    kept type key cid keys (insert (natural_index_key type j) cid index) (
      ground
        (arith, h, lookup-insert (natural_index_key type j) (natural_index_key type key) cid index))

contains-index_keys :
    (type key cid : String) (keys : List String) (index : Dict String)
    → contains key keys ≡ true
    → lookup (natural_index_key type key) (index_keys type keys cid index) ≡ some cid
unfolding index_keys
contains-index_keys type key cid [] index h = absurd (ground (arith, h))
contains-index_keys type key cid (j ∷ keys) index h = elim (Bool-cases (contains key keys)) [
  | inl later ↦
      contains-index_keys type key cid keys (insert (natural_index_key type j) cid index) later
  | inr last ↦ kept type key cid keys (insert (natural_index_key type j) cid index) (
      ground (
        arith,
        h,
        last,
        eq_iff j key,
        lookup-insert (natural_index_key type j) (natural_index_key type key) cid index,
        eq_iff (natural_index_key type j) (natural_index_key type key),
      ))
]

-- After a link is stored, it is found by each of its natural keys.
pub by_natural_key-upsert_link :
    (now : ℕ) (link : Link) (s : Store) (key : String)
    → (link.canonical_id == "") ≡ false
    → contains key (get_or link.natural_keys []) ≡ true
    → by_natural_key link.type key (upsert_link now link s)
      ≡ some (record link { updated_at = stamp now })
unfolding by_natural_key upsert_link index_link
by_natural_key-upsert_link now link s key h n = ground (
  arith,
  h,
  contains-index_keys link.type key link.canonical_id (get_or link.natural_keys []) s.natural_index
      n,
  eq_iff link.canonical_id link.canonical_id,
  lookup-insert link.canonical_id link.canonical_id (record link { updated_at = stamp now })
      s.links,
)
