-- ===== src/Reconciler/Records.antt =====
-- src/engine/reconciler.ts: what a reconciliation that wrote a change records of it.

use hubspot_salesforce_conne.Prelude.{
  eq_iff, arith, ◌≡◌, refl, ◌∙◌, ap, sym, ◌⊎◌, inl, inr, Bool-cases, Option-cases,
}
use hubspot_salesforce_conne.Prelude.{ℕ, String, true, false, some, ◌==◌}
use hubspot_salesforce_conne.Prelude.Time.{stamp}
use hubspot_salesforce_conne.Types.{
  SystemId, salesforce, hubspot, other, PerSystem, of_system, set_system, CanonicalRecord,
  UpsertResult,
}
use hubspot_salesforce_conne.Exec.{bind_ok, Result, ok, pure, ◌>>=◌}
use hubspot_salesforce_conne.IdMap.{Link, content_hash, by_source, upsert_link}
use hubspot_salesforce_conne.Reconciler.Base.{Connectors, Context, State, truthy, call}
use hubspot_salesforce_conne.Reconciler.Steps.{check_required_fields}
use hubspot_salesforce_conne.Reconciler.{
  propagate, settle, deliver, agree, finish, choose_winner, write_back, recorded, write_winner,
}
use hubspot_salesforce_conne.IdMap.Links.{names, by_source-upsert_link}

of-set {ℓ} :
    {A : Type ℓ} (at : SystemId) (a : A) (p : PerSystem A) → of_system at (set_system at a p) ≡ a
of-set salesforce a p = refl
of-set hubspot a p = refl

of-set_other {ℓ} :
    {A : Type ℓ} (at : SystemId) (a b : A) (p : PerSystem A)
    → of_system (other at) (set_system at a (set_system (other at) b p)) ≡ b
of-set_other salesforce a b p = refl
of-set_other hubspot a b p = refl

module _ {W : Type 0} (v : Connectors W) (c : Context) (now : ℕ) where
  recorded-names :
      (source winner : CanonicalRecord) (result : UpsertResult) (hash : String) (link : Link)
      → (source.meta.source_id == "") ≡ false
      → names
          (recorded v c now source winner result hash link)
          source.meta.source
          source.meta.source_id
        ≡ true
  unfolding recorded
  recorded-names source winner result hash link h = ground (
    arith,
    h,
    eq_iff source.meta.source_id source.meta.source_id,
    of-set source.meta.source (some source.meta.source_id)
        (set_system (other source.meta.source) (some result.target_id) link.ids),
  )

  recorded-names-other :
      (source winner : CanonicalRecord) (result : UpsertResult) (hash : String) (link : Link)
      → (result.target_id == "") ≡ false
      → names
          (recorded v c now source winner result hash link)
          (other source.meta.source)
          result.target_id
        ≡ true
  unfolding recorded
  recorded-names-other source winner result hash link h = ground (
    arith,
    h,
    eq_iff result.target_id result.target_id,
    of-set_other source.meta.source (some source.meta.source_id) (some result.target_id) link.ids,
  )

  -- what is left of a propagation once the winner is written
  record_link :
      (source winner : CanonicalRecord) (result : UpsertResult) (hash : String) (link : Link)
      (s s' : State W)
      → s'.id_map ≡ upsert_link now (recorded v c now source winner result hash link) s.id_map
      → (source.meta.source_id == "") ≡ false
      → (link.canonical_id == "") ≡ false
      → by_source source.meta.source source.meta.source_id s'.id_map
        ≡ some (record (recorded v c now source winner result hash link) { updated_at = stamp now })
  unfolding recorded
  record_link source winner result hash link s s' e h k =
      ap (by_source source.meta.source source.meta.source_id) e
      ∙ by_source-upsert_link now (recorded v c now source winner result hash link) s.id_map
          source.meta.source source.meta.source_id k
          (recorded-names source winner result hash link h)

  record_link_other :
      (source winner : CanonicalRecord) (result : UpsertResult) (hash : String) (link : Link)
      (s s' : State W)
      → s'.id_map ≡ upsert_link now (recorded v c now source winner result hash link) s.id_map
      → (link.canonical_id == "") ≡ false
      → (by_source (other source.meta.source) result.target_id s'.id_map
          ≡ some
              (record (recorded v c now source winner result hash link) { updated_at = stamp now }))
        ⊎ ((result.target_id == "") ≡ true)
  unfolding recorded
  record_link_other source winner result hash link s s' e k =
      elim (Bool-cases (result.target_id == "")) [
        | inl blank ↦ inr blank
        | inr h ↦ inl (
            ap (by_source (other source.meta.source) result.target_id) e
            ∙ by_source-upsert_link now (recorded v c now source winner result hash link) s.id_map
                (other source.meta.source) result.target_id k
                (recorded-names-other source winner result hash link h))
      ]

  recorded_hash :
      (source winner : CanonicalRecord) (result : UpsertResult) (hash : String) (link : Link)
      → (hash ≡ content_hash c.hash source.fields) ⊎ (hash ≡ content_hash c.hash winner.fields)
      → (of_system source.meta.source (recorded v c now source winner result hash link).hashes
          ≡ some (content_hash c.hash source.fields))
        ⊎ (of_system source.meta.source (recorded v c now source winner result hash link).hashes
            ≡ some (content_hash c.hash winner.fields))
  unfolding recorded
  recorded_hash source winner result hash link (inl e) = inl (
      of-set source.meta.source (some hash) (
        set_system (other source.meta.source) (some (content_hash c.hash winner.fields))
          link.hashes)
      ∙ ap some e)
  recorded_hash source winner result hash link (inr e) = inr (
      of-set source.meta.source (some hash) (
        set_system (other source.meta.source) (some (content_hash c.hash winner.fields))
          link.hashes)
      ∙ ap some e)

  -- What a propagation leaves behind: the write it made, and the two entries by which later
  -- webhooks are compared.
  pub record LeavesEcho (source : CanonicalRecord) (link : Link) (s' : State W) : Type 0 where
    pub winner : CanonicalRecord
    pub result : UpsertResult
    pub stored : Link
    -- the states in which the winner was written
    pub before : State W
    pub after : State W
    pub written :
        write_winner v c now source winner (of_system (other source.meta.source) link.ids) before
        ≡ (ok result, after)
    pub from_source : by_source source.meta.source source.meta.source_id s'.id_map ≡ some stored
    pub from_target :
        (by_source (other source.meta.source) result.target_id s'.id_map ≡ some stored)
        ⊎ ((result.target_id == "") ≡ true)
    pub target_hash :
        of_system (other source.meta.source) stored.hashes
        ≡ some (content_hash c.hash winner.fields)
    pub source_hash :
        (of_system source.meta.source stored.hashes ≡ some (content_hash c.hash source.fields))
        ⊎ (of_system source.meta.source stored.hashes ≡ some (content_hash c.hash winner.fields))

  written_hash :
      (source winner : CanonicalRecord) (link : Link) (s t : State W) (h : String)
      → write_back v c now source winner link s ≡ (ok h, t)
      → (h ≡ content_hash c.hash source.fields) ⊎ (h ≡ content_hash c.hash winner.fields)
  unfolding write_back
  written_hash source winner link s t h e =
      elim (Bool-cases (content_hash c.hash winner.fields == content_hash c.hash source.fields)) [
        | inl same ↦ inl (ground (arith, e, same))
        | inr differ ↦ elim (Option-cases (truthy (of_system source.meta.source link.ids))) [
          | inl gone ↦ inl (ground (arith, e, differ, gone))
          | inr (id, there) ↦
              let run : (call (v.upsert source.meta.source winner (some id))
                      >>= (λ _. pure (content_hash c.hash winner.fields)))
                    s
                  ≡ (ok h, t) =
                ground (arith, e, differ, there) in
              let (r, t', first, last) =
                bind_ok (call (v.upsert source.meta.source winner (some id)))
                  (λ _. pure (content_hash c.hash winner.fields)) s t h run in
              inr (ground (arith, last))
        ]
      ]

  -- When a change has been carried over without a failure, the source's id, and the id that the
  -- write returned unless that is empty, lead to one stored link. Under the other system this link
  -- records the hash of the winner that was written there, and under the source's system the hash
  -- of the source or of the winner. The ids of the source and of the link are not empty.
  pub propagate-LeavesEcho :
      (source : CanonicalRecord) (link : Link) (s s' : State W)
      → (source.meta.source_id == "") ≡ false
      → (link.canonical_id == "") ≡ false
      → propagate v c now source link s ≡ (ok tt, s')
      → LeavesEcho source link s'
  unfolding propagate settle deliver agree finish recorded
  propagate-LeavesEcho source link s s' h k e =
      let (winner, t1, _, e1) =
        bind_ok (choose_winner v c now source link) (settle v c now source link) s s' tt e in
      let (_, t2, _, e2) =
        bind_ok (check_required_fields v c now (other source.meta.source) winner)
          (λ _. deliver v c now source winner link) t1 s' tt e1 in
      let (result, t3, written, e3) =
        bind_ok (write_winner v c now source winner (of_system (other source.meta.source) link.ids))
          (agree v c now source winner link) t2 s' tt e2 in
      let (hash, t4, back, e4) =
        bind_ok (write_back v c now source winner link) (finish v c now source winner link result)
          t3 s' tt e3 in
      let map_eq : s'.id_map
          ≡ upsert_link now (recorded v c now source winner result hash link) t4.id_map =
        sym (ap (λ (r : Result (Unit {0}) × State W). r.1.id_map) e4) in
      record {
        winner = winner;
        result = result;
        stored = record (recorded v c now source winner result hash link) {
          updated_at = stamp now;
        };
        before = t2;
        after = t3;
        written = written;
        from_source = record_link source winner result hash link t4 s' map_eq h k;
        from_target = record_link_other source winner result hash link t4 s' map_eq k;
        target_hash =
            of-set_other source.meta.source (some hash) (some (content_hash c.hash winner.fields))
              link.hashes;
        source_hash =
            recorded_hash source winner result hash link
              (written_hash source winner link t3 t4 hash back);
      }
