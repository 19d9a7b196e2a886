-- ===== src/Session/Types.antt =====
-- The vocabulary of the session log: the entries, records and mutations of session-state.ts, with
-- the field lists of session-schemas.ts. What this code never reads of an entry or a record (a
-- message, a summary, tool arguments) is its JSON text, `body`. Token counts and costs are natural
-- numbers, a cost in a unit fine enough to be whole.
use saku.Base.{ℕ, Option, String, Bool, true, false, ◌≡◌, ◌⊎◌, inl, inr, refl}

pub data EntryType : Type 0 where
  message model_change thinking_level_change active_tools_change : EntryType
  compaction branch_summary custom : EntryType

pub EntryType-discrete : Discrete EntryType
EntryType-discrete = hlevel

pub record Entry : Type 0 where
  pub id : String
  pub type : EntryType
  pub custom_type : Option String  -- only where `type` is `custom`
  pub body : String
  pub parent_id : Option String  -- `none` for null
  pub seq : ℕ
  pub timestamp : ℕ

pub record Usage : Type 0 where
  pub input : ℕ
  pub cache_read : ℕ
  pub cache_write : ℕ
  pub total_tokens : ℕ
  pub cost_total : ℕ

-- The arms of the record union, with the fields that this code reads.
pub data RecordBody : Type 0 where
  operation_started : (intent_kind : String) → RecordBody
  abort_requested operation_finished step_attempt tool_started : (run_id : String) → RecordBody
  write_deferred : (run_id : String) → RecordBody
  queue_enqueued queue_cancelled : (run_id : Option String) → RecordBody
  usage : Usage → (run_id : Option String) → RecordBody

pub record LaneRecord : Type 0 where
  pub id : String
  pub lane : String
  pub body : RecordBody
  pub rest : String
  pub seq : ℕ
  pub timestamp : ℕ

pub data SessionMutation : Type 0 where
  entry : (lane : Option String) → Entry → SessionMutation
  lane_record : LaneRecord → SessionMutation
  lane : (seq : ℕ) → (lane : String) → (leaf_id : Option String) → SessionMutation
  name : (seq : ℕ) → (name : String) → SessionMutation
  label : (seq : ℕ) → (target_id : String) → (label : Option String) → SessionMutation

-- pi's log item: a mutation without the lane of an entry.
pub data LogItem : Type 0 where
  entry : Entry → LogItem
  lane_record : LaneRecord → LogItem
  lane : (seq : ℕ) → (lane : String) → (leaf_id : Option String) → LogItem
  name : (seq : ℕ) → (name : String) → LogItem
  label : (seq : ℕ) → (target_id : String) → (label : Option String) → LogItem

-- The sequence number of a log item.
abbrev pub item_seq : LogItem → ℕ
item_seq (LogItem.entry e) = e.seq
item_seq (LogItem.lane_record r) = r.seq
item_seq (LogItem.lane seq _ _) = seq
item_seq (LogItem.name seq _) = seq
item_seq (LogItem.label seq _ _) = seq

pub record SessionStats : Type 0 where
  pub cached_tokens : ℕ
  pub uncached_tokens : ℕ
  pub total_tokens : ℕ
  pub cost_total : ℕ
  pub message_count : ℕ

-- The codes of `SessionError`; the messages are left out. `out_of_fuel` is the model's own.
pub data SessionError : Type 0 where
  invalid_entry invalid_query invalid_lane invalid_fork_target invalid_payload : SessionError
  not_found already_exists storage out_of_fuel : SessionError

-- A thrown error carries no state: every throw below comes before the first write.
pub data Result {κ} (V : Type κ) : Type κ where
  err : (code : SessionError) → Result V
  ok : (value : V) → Result V

infixl 5 ◌>>=◌ ◌>>◌
abbrev pub ◌>>=◌ {κ μ} : {V : Type κ} {W : Type μ} → Result V → (V → Result W) → Result W
err code >>= next = err code
ok value >>= next = next value

abbrev pub ◌>>◌ {κ μ} : {V : Type κ} {W : Type μ} → Result V → Result W → Result W
first >> second = first >>= λ _. second

pub Result-cases {ℓ} :
    {A : Type ℓ} (r : Result A) → ((a : A) × (r ≡ ok a)) ⊎ ((e : SessionError) × (r ≡ err e))
Result-cases (ok a) = inl (a, refl)
Result-cases (err e) = inr (e, refl)

pub ok_injective {ℓ} : {A : Type ℓ} {a b : A} → ok a ≡ ok b → a ≡ b
ok_injective h = cc

-- `if (!test) throw new SessionError(code)`
abbrev pub guard : (test : Bool) → (code : SessionError) → Result (Unit {0})
guard false code = err code
guard true code = ok tt

-- What follows a step that did not throw.
pub >>=-eq-ok {κ μ} :
    {V : Type κ} {W : Type μ} (first : Result V) (next : V → Result W) {last : W}
    → (first >>= next) ≡ ok last
    → (value : V) × (first ≡ ok value) × (next value ≡ ok last)
>>=-eq-ok (err code) next thrown = cc
>>=-eq-ok (ok value) next passed = (value, refl, passed)

-- What follows a guard that passed.
pub guard-eq-ok {ℓ} :
    {A : Type ℓ} (b : Bool) (e : SessionError) (m : Result A) {a : A}
    → (guard b e >> m) ≡ ok a
    → (b ≡ true) × (m ≡ ok a)
guard-eq-ok true e m h = (refl, h)
guard-eq-ok false e m h = cc
