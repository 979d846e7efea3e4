-- ===== src/Store/Waiting.antt =====
-- The fragments that wait and the rows of the inbox: what the two statements that end a wait do.
use fragments_engine.Common.{
  String, ◌≡◌, ◌≢◌, refl, sym, ap, ◌∙◌, Option, none, some, arith, str_eq, eq_iff, ◌⊎◌, inl, inr,
  Bool-cases,
}
use fragments_engine.Common.Error.{Result, ok, err}
use fragments_engine.Delivery.Types.{FragmentStatus, inbox, routed}
use fragments_engine.Store.Action.{World, InboxItem, update}
use fragments_engine.Store.Action.Hoare.{Hoare, Hoare-bind, Hoare-write, Hoare-query, Ends}
use fragments_engine.Store.Statements.{
  remove, update_status, write_status, set_status, canonical, or_no_rows,
  resolve_canonical_fragment_id,
}

-- Every fragment whose status is `inbox` has a row in the inbox.
abbrev pub NothingLost : {Q : Type 0} → World Q → Type 0
NothingLost w =
    (id : String) → w.status id ≡ some inbox → (item : InboxItem) × (w.inbox id ≡ some item)

pub NothingLost-framed :
    {Q : Type 0} (w w' : World Q)
    → w'.status ≡ w.status
    → w'.inbox ≡ w.inbox
    → w'.aliases ≡ w.aliases
    → NothingLost w
    → NothingLost w'
NothingLost-framed w w' same_status same_inbox same_aliases kept id waits =
    let (item, row) = kept id (ap (λ t. t id) (sym same_status) ∙ waits) in
    (item, ap (λ t. t id) same_inbox ∙ row)

canonical_self :
    (row : Option FragmentStatus) (id : String)
    → (canonical none row id ≡ none) ⊎ (canonical none row id ≡ some id)
canonical_self none id = inl refl
canonical_self (some s) id = ground arith

set_status-ne-inbox : (row : Option FragmentStatus) → set_status row routed ≢ some inbox
set_status-ne-inbox none e = cc
set_status-ne-inbox (some s) e = cc

module _ {Q : Type 0} (fragment_id : String) where
  -- The fragment at hand is no alias of another.
  abbrev pub Holds : World Q → Type 0
  Holds w = NothingLost w × (w.aliases fragment_id ≡ none)

  pub Holds-framed :
      (w w' : World Q)
      → w'.status ≡ w.status
      → w'.inbox ≡ w.inbox
      → w'.aliases ≡ w.aliases
      → Holds w
      → Holds w'
  Holds-framed w w' same_status same_inbox same_aliases (kept, own) = (
    NothingLost-framed w w' same_status same_inbox same_aliases kept,
    ap (λ t. t fragment_id) same_aliases ∙ own,
  )

  -- After the status is written the row may go.
  abbrev pub MayLeave : World Q → Type 0
  MayLeave w = NothingLost w × (w.status fragment_id ≢ some inbox)

  resolve-Holds :
      Hoare Holds
        (resolve_canonical_fragment_id fragment_id)
        (λ id w. Holds w × (id ≡ fragment_id))
        NothingLost
  unfolding resolve_canonical_fragment_id
  resolve-Holds =
      Hoare-query _ (λ w faults h. h) (λ w h. found w h) (λ w h. h.0) (λ w faults h. h)
        (λ id w faults h. h)
    where
      found :
          (w : World Q)
          → Holds w
          → Ends
              (λ id w'. Holds w' × (id ≡ fragment_id))
              NothingLost
              (or_no_rows (canonical (w.aliases fragment_id) (w.status fragment_id) fragment_id), w)
      found w h = rw h.1 (elim (canonical_self (w.status fragment_id) fragment_id) [
        | inl none_there ↦ rw none_there h.0
        | inr itself ↦ rw itself (h, refl)
      ])

  write_status-MayLeave :
      (id : String)
      → Hoare
          (λ w. Holds w × (id ≡ fragment_id))
          (write_status id routed)
          (λ _. MayLeave)
          NothingLost
  unfolding write_status
  write_status-MayLeave id = Hoare-write _ good (λ w h. h.0.0) (λ w faults h. h) (λ w faults h. h)
    where
      good :
          (w : World Q)
          → Holds w × (id ≡ fragment_id)
          → MayLeave (record w { status = update id (set_status (w.status id) routed) w.status })
      good w ((kept, _), same) = (
        λ other waits. elim (Bool-cases (str_eq id other)) [
          | inl e ↦ absurd (set_status-ne-inbox (w.status id) (rw e at waits))
          | inr e ↦ kept other (rw e at waits)
        ],
        λ waits. set_status-ne-inbox (w.status id) (rw ((eq_iff id fragment_id).1 same) at waits),
      )

  pub remove-NothingLost : Hoare MayLeave (remove fragment_id) (λ _. NothingLost) NothingLost
  unfolding remove
  remove-NothingLost = Hoare-write _ gone (λ w h. h.0) (λ w faults h. h) (λ w faults h. h)
    where
      gone :
          (w : World Q)
          → MayLeave w
          → NothingLost (record w { inbox = update fragment_id none w.inbox })
      gone w (kept, routed_now) other waits = elim (Bool-cases (str_eq fragment_id other)) [
        | inl e ↦ absurd (routed_now (ap w.status ((eq_iff fragment_id other).0 e) ∙ waits))
        | inr e ↦ rw e (kept other waits)
      ]

  pub update_status-MayLeave :
      Hoare Holds (update_status fragment_id routed) (λ _. MayLeave) NothingLost
  unfolding update_status
  update_status-MayLeave = Hoare-bind _ _ resolve-Holds write_status-MayLeave

pub ends_same :
    {Q A : Type 0} (P : World Q → Type 0) (out : Result A × World Q) → Ends (λ _. P) P out → P out.1
ends_same P (ok a, w) h = h
ends_same P (err e, w) h = h
