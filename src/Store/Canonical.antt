-- ===== src/Store/Canonical.antt =====
-- Aliases, and the fragment that an id stands for.
use fragments_engine.Common.{String, ◌≡◌, refl, sym, ap, ◌∙◌, Option, none, some, arith}
use fragments_engine.Delivery.Types.{FragmentStatus}
use fragments_engine.Store.Action.{World, query}
use fragments_engine.Store.Action.Hoare.{Hoare, Hoare-bind, Hoare-query, Ends}
use fragments_engine.Store.Statements.{
  get_by_id, found_fragment, canonical, or_no_rows, resolve_canonical_fragment_id,
}
use fragments_engine.Store.Waiting.{NothingLost, NothingLost-framed, Holds}

-- An alias names a fragment that is no alias itself.
abbrev pub NoChains : {Q : Type 0} → World Q → Type 0
NoChains w = (a id : String) → w.aliases a ≡ some id → w.aliases id ≡ none

abbrev pub Safe : {Q : Type 0} → World Q → Type 0
Safe w = NothingLost w × NoChains w

pub Safe-framed :
    {Q : Type 0} (w w' : World Q)
    → w'.status ≡ w.status
    → w'.inbox ≡ w.inbox
    → w'.aliases ≡ w.aliases
    → Safe w
    → Safe w'
Safe-framed w w' a b c (kept, flat) = (
  NothingLost-framed w w' a b c kept,
  λ x id named. ap (λ t. t id) c ∙ flat x id (ap (λ t. t x) (sym c) ∙ named),
)

Safe-own :
    {Q : Type 0} (w : World Q) (a id : String)
    → Safe w
    → canonical (w.aliases a) (w.status a) a ≡ some id
    → w.aliases id ≡ none
Safe-own w a id (kept, flat) e = own (w.aliases a) (w.status a) refl e
  where
    own :
        (alias : Option String) (row : Option FragmentStatus)
        → w.aliases a ≡ alias
        → canonical alias row a ≡ some id
        → w.aliases id ≡ none
    own none none there e = ground arith
    own none (some status) there e = ground arith
    own (some b) row there e = ground (arith, flat a id)

pub get_by_id-Holds :
    {Q : Type 0} (fragment_id : String)
    → Hoare {Q = Q} Safe (get_by_id fragment_id) (λ f w. Holds f.id w) Safe
unfolding get_by_id resolve_canonical_fragment_id
get_by_id-Holds {Q} fragment_id =
    Hoare-bind {R = λ id w. Safe w × (w.aliases id ≡ none)} _ _ resolve row
  where
    resolve :
        Hoare {Q = Q} Safe
          (resolve_canonical_fragment_id fragment_id)
          (λ id w. Safe w × (w.aliases id ≡ none))
          Safe
    resolve =
        Hoare-query _ (λ w faults h. h)
          (λ w h.
            ends w h (canonical (w.aliases fragment_id) (w.status fragment_id) fragment_id) refl)
          (λ w h. h) (λ w faults h. h) (λ id w faults h. h)
      where
        ends :
            (w : World Q)
            → Safe w
            → (o : Option String)
            → canonical (w.aliases fragment_id) (w.status fragment_id) fragment_id ≡ o
            → Ends (λ id w. Safe w × (w.aliases id ≡ none)) Safe (or_no_rows o, w)
        ends w h none e = h
        ends w h (some id) e = (h, Safe-own w fragment_id id h e)

    row :
        (id : String)
        → Hoare {Q = Q}
            (λ w. Safe w × (w.aliases id ≡ none))
            (query (λ w. found_fragment id (w.origins id) (w.status id)))
            (λ f w. Holds f.id w)
            Safe
    row id =
        Hoare-query _ (λ w faults h. h) (λ w h. ends w h (w.status id)) (λ w h. h.0)
          (λ w faults h. h) (λ f w faults h. h)
      where
        ends :
            (w : World Q)
            → Safe w × (w.aliases id ≡ none)
            → (o : Option FragmentStatus)
            → Ends (λ f w. Holds f.id w) Safe (found_fragment id (w.origins id) o, w)
        ends w h none = h.0
        ends w h (some status) = (h.0.0, h.1)
