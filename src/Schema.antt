-- ===== src/Schema.antt =====
-- internal/schema/event.go: the record that every adapter produces and the store keeps.
-- An int64 is its 64-bit pattern (Base/Int64), a time.Time its instant (Base/Time), a nil pointer
-- is `none`. A float64 is its bit pattern too: nothing here computes with one.
use burnmon.Base.{
  ℕ, String, Option, none, some, List, Bool, not, ◌&&◌, ◌==◌, ◌≡◌, ◌+64◌, Eq, ◌↔◌, arith, nat_eq,
  string_eq,
}
use burnmon.Base.{true}
use text.Mathlib.TextEquality.{eq_iff}

pub record Event : Type 0 where
  pub vendor : String
  pub agent : String
  pub surface : String
  pub session_id : String
  pub request_id : String
  pub parent_id : String
  pub at : ℕ
  pub model : String
  pub project : String
  pub owner : String
  pub client : String
  pub title : String
  pub input : ℕ
  pub cache_write : Option ℕ
  pub cache_read : Option ℕ
  pub output : ℕ
  pub reasoning : Option ℕ
  pub vendor_cost : Option ℕ
  pub window_used : Option ℕ
  pub window_reset : Option ℕ
  pub tools : List (String × ℕ)

pub record ToolCall : Type 0 where
  pub vendor : String
  pub agent : String
  pub session_id : String
  pub call_id : String
  pub turn : String
  pub tool : String
  pub at : ℕ
  pub input_bytes : ℕ
  pub result_bytes : Option ℕ
  pub path : String

-- The `isTurn` that internal/live, internal/insight and internal/export each declare: false for
-- the synthetic event that only carries tool counts.
unfoldable pub is_turn : Event → Bool
is_turn e = not (e.model == "" && e.input == 0 && e.output == 0)

-- `*p`, or 0 where the pointer is nil.
unfoldable pub value_or_zero : Option ℕ → ℕ
value_or_zero none = 0
value_or_zero (some n) = n

-- `contextOf`: everything that the turn sent.
unfoldable pub context_of : Event → ℕ
unfolding value_or_zero
context_of e = e.input +64 value_or_zero e.cache_read +64 value_or_zero e.cache_write

-- The primary key of both tables: vendor, session_id, and request_id or call_id.
pub record Key : Type 0 where
  pub vendor : String
  pub session_id : String
  pub item_id : String

abbrev pub key_beq : Key → Key → Bool
key_beq a b = a.vendor == b.vendor && a.session_id == b.session_id && a.item_id == b.item_id

pub key_beq_iff : (a b : Key) → (key_beq a b ≡ true) ↔ (a ≡ b)
key_beq_iff a b =
    ground (
      arith,
      eq_iff a.vendor b.vendor,
      eq_iff a.session_id b.session_id,
      eq_iff a.item_id b.item_id,
    )

instance abbrev pub key_eq : Eq Key
key_eq = record { beq = key_beq; beq_iff = key_beq_iff }

abbrev pub event_key : Event → Key
event_key e = record { vendor = e.vendor; session_id = e.session_id; item_id = e.request_id }

abbrev pub call_key : ToolCall → Key
call_key c = record { vendor = c.vendor; session_id = c.session_id; item_id = c.call_id }
