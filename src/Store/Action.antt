-- ===== src/Store/Action.antt =====
-- Actions on the database: a result, and the tables after it.
pub mod Preserves
pub mod Hoare
pub mod Reads
pub mod Returns
use fragments_engine.Common.{
  ℕ, String, Bool, true, false, Option, List, [], ◌∷◌, str_eq, if◌then◌else◌,
}
use fragments_engine.Common.Error.{Err, plain, wrap, Result, ok, err}
use fragments_engine.Delivery.Types.{
  Destination, FragmentStatus, FragmentAttachment, PublishedAttachment,
}

pub record Route : Type 0 where
  pub id : String
  pub name : String
  pub match_source : String
  pub match_type : String
  pub match_entity_kind : String
  pub match_entity_value : String
  pub destination_id : String
  pub auto_route : Bool

pub record FragmentEntity : Type 0 where
  pub kind : String
  pub value : String

pub record AttachmentCollision : Type 0 where
  pub attachment_id : String
  pub previous_route_id : String

-- What `deliveryReasonPayload` holds before it is written as JSON; an empty field is left out there.
pub record ReasonPayload : Type 0 where
  pub entity_kind : String
  pub entity_value : String
  pub attempts : ℕ
  pub ref : String
  pub error : Option Err
  pub destination_kind : String
  pub attachment_collisions : List AttachmentCollision

-- A text, or a prefix with an encoded payload.
pub data Reason : Type 0 where
  words : String → Reason
  encoded : String → ReasonPayload → Reason

pub record RouteLogEntry : Type 0 where
  pub fragment_id : String
  pub route_id : String
  pub destination_id : String
  pub decision : String
  pub reason : Reason
  pub created_at : ℕ

-- A row of `queue_job_events`.
pub record QueueJobEvent : Type 0 where
  pub failed_job_id : Option ℕ
  pub fragment_id : String
  pub route_id : String
  pub destination_id : String
  pub event_type : String
  pub attempts : ℕ
  pub error : Option Err
  pub ref : String
  pub created_at : ℕ

pub record InboxItem : Type 0 where
  pub reason : String
  pub staged_at : ℕ
  pub route_id : Option String

-- The columns `source` and `source_type` of a fragment's row.
pub record FragmentOrigin : Type 0 where
  pub source : String
  pub source_type : String

-- `faults` says of each statement to come whether it fails; past its end none does. `calls` counts
-- the executor calls made, `now` is the clock.
pub record World (Q : Type 0) : Type 0 where
  pub faults : List Bool
  pub calls : ℕ
  pub now : ℕ
  pub status : String → Option FragmentStatus
  pub aliases : String → Option String
  pub inbox : String → Option InboxItem
  pub route_log : List RouteLogEntry
  pub routes : List Route
  pub destinations : String → Option Destination
  pub origins : String → FragmentOrigin
  pub entities : String → List FragmentEntity
  pub attachments : String → List FragmentAttachment
  pub published : String → String → Option PublishedAttachment
  pub events : List QueueJobEvent
  pub queue : Q

-- An SQL error.
abbrev pub statement_failed : Err
statement_failed = plain "statement failed"

abbrev pub Action : Type 0 → Type 0 → Type 0
Action Q A = World Q → Result A × World Q

module _ {Q A : Type 0} where
  unfoldable pub pure : A → Action Q A
  pure a w = (ok a, w)

  unfoldable pub raise : Err → Action Q A
  raise e w = (err e, w)

  unfoldable pub lift : Result A → Action Q A
  lift r w = (r, w)

  -- A step outside the database, which cannot fail here.
  unfoldable pub step : (World Q → A × World Q) → Action Q A
  step f w = let (a, w') = f w in (ok a, w')

  -- A SELECT, which may fail.
  run_query : List Bool → (World Q → Result A) → Action Q A
  run_query [] f w = (f w, w)
  run_query (false ∷ faults) f w = (f w, record w { faults = faults })
  run_query (true ∷ faults) f w = (err statement_failed, record w { faults = faults })

  unfoldable pub query : (World Q → Result A) → Action Q A
  unfolding run_query
  query f w = run_query w.faults f w

module _ {Q : Type 0} where
  -- An INSERT, UPDATE or DELETE, which may fail and writes nothing then.
  run_write : List Bool → (World Q → World Q) → Action Q (Unit {0})
  run_write [] f w = (ok tt, f w)
  run_write (false ∷ faults) f w = (ok tt, record (f w) { faults = faults })
  run_write (true ∷ faults) f w = (err statement_failed, record w { faults = faults })

  unfoldable pub write : (World Q → World Q) → Action Q (Unit {0})
  unfolding run_write
  write f w = run_write w.faults f w

module _ {Q A B : Type 0} where
  abbrev pub continue : Result A → (A → Action Q B) → Action Q B
  continue (ok a) f w = f a w
  continue (err e) f w = (err e, w)

  infixl 5 ◌>>=◌ ◌>>◌
  unfoldable pub ◌>>=◌ : Action Q A → (A → Action Q B) → Action Q B
  ◌>>=◌ m f w = let (r, w') = m w in continue r f w'

  abbrev pub ◌>>◌ : Action Q A → Action Q B → Action Q B
  m >> k = m >>= λ _. k

  -- `if err := m(); err == nil { … } else { … }`.
  handle : Result A → (A → Action Q B) → (Err → Action Q B) → Action Q B
  handle (ok a) f g w = f a w
  handle (err e) f g w = g e w

  unfoldable pub attempt : Action Q A → (A → Action Q B) → (Err → Action Q B) → Action Q B
  unfolding handle
  attempt m f g w = let (r, w') = m w in handle r f g w'

module _ {Q A : Type 0} where
  -- `fmt.Errorf("prefix: %w", err)` around a call.
  abbrev pub wrapped : String → Action Q A → Action Q A
  wrapped prefix m = attempt m pure (λ e. raise (wrap prefix e))

-- A table with the value at one key replaced.
abbrev pub update {ℓ} : {V : Type ℓ} → String → V → (String → V) → String → V
update k v t j = if str_eq k j then v else t j
