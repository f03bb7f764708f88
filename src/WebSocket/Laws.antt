-- ===== src/WebSocket/Laws.antt =====
-- app/src/services/WebSocketService.ts: when the last settings that a socket has been sent are those
-- that are kept.
use facenox.Base.{
  ℕ, ◌≡◌, refl, Bool, true, false, ◌&&◌, Option, none, some, put, ◌==◌, ==_iff, Bool-cases,
  and_split, inl, inr,
}
use facenox.WebSocket.{
  ReadyState, absent, opening, opened, closing, closed, LiveConfig, is_opened, is_opened_socket,
  is_opening, is_current, is_absent,
}
use facenox.WebSocket.Events.{sent_to, after_close}

-- A socket that has not been opened has been sent nothing.
abbrev pub Unsent : ReadyState → Option LiveConfig → Type 0
Unsent absent config = config ≡ none
Unsent opening config = config ≡ none
Unsent _ config = Unit

abbrev pub Matches : Bool → Option LiveConfig → Option LiveConfig → Type 0
Matches true last kept = last ≡ kept
Matches false last kept = Unit

abbrev pub last_of : (ℕ → Option LiveConfig) → Option ℕ → Option LiveConfig
last_of last none = none
last_of last (some a) = last a

pub Matches-off : (b : Bool) (last kept : Option LiveConfig) → b ≡ false → Matches b last kept
Matches-off true last kept h = absurd cc
Matches-off false last kept h = tt

pub Matches-same : (b : Bool) (last kept : Option LiveConfig) → last ≡ kept → Matches b last kept
Matches-same true last kept h = h
Matches-same false last kept h = tt

pub and_off : (a : Bool) → (a && false) ≡ false
and_off true = refl
and_off false = refl

pub same_number : (a : ℕ) → (a == a) ≡ true
same_number a = (==_iff a a).1 refl

pub Unsent-after_close :
    (state : ReadyState) (last : Option LiveConfig) → Unsent (after_close state) last
Unsent-after_close closed last = tt
Unsent-after_close absent last = tt
Unsent-after_close opening last = tt
Unsent-after_close opened last = tt
Unsent-after_close closing last = tt

pub absent-none :
    (state : ReadyState) (last : Option LiveConfig)
    → is_absent state ≡ true
    → Unsent state last
    → last ≡ none
absent-none absent last h unsent = unsent
absent-none opening last h unsent = absurd cc
absent-none opened last h unsent = absurd cc
absent-none closing last h unsent = absurd cc
absent-none closed last h unsent = absurd cc

pub put-Unsent :
    (a : ℕ) (state : ReadyState) (ready : ℕ → ReadyState) (last : ℕ → Option LiveConfig)
    → ((b : ℕ) → Unsent (ready b) (last b))
    → Unsent state (last a)
    → (b : ℕ) → Unsent (put a state ready b) (last b)
put-Unsent a state ready last old new b = elim (Bool-cases (a == b)) [
  | inl h ↦ rw (h, ← ((==_iff a b).0 h)) new
  | inr h ↦ rw h (old b)
]

opened-Unsent :
    (state : ReadyState) (last : Option LiveConfig) → is_opened state ≡ true → Unsent state last
opened-Unsent opened last h = tt
opened-Unsent absent last h = absurd cc
opened-Unsent opening last h = absurd cc
opened-Unsent closing last h = tt
opened-Unsent closed last h = tt

sent-Unsent :
    (a : ℕ) (config : LiveConfig) (ready : ℕ → ReadyState) (last : ℕ → Option LiveConfig)
    → is_opened (ready a) ≡ true
    → ((b : ℕ) → Unsent (ready b) (last b))
    → (b : ℕ) → Unsent (ready b) (put a (some config) last b)
sent-Unsent a config ready last is_open old b = elim (Bool-cases (a == b)) [
  | inl h ↦ rw (h, ← ((==_iff a b).0 h)) (opened-Unsent (ready a) (some config) is_open)
  | inr h ↦ rw h (old b)
]

pub Matches-put :
    (is_on : Bool) (ready : ℕ → ReadyState) (ws : Option ℕ) (last kept : Option LiveConfig) (a : ℕ)
    (state : ReadyState)
    → is_opened state ≡ false
    → Matches (is_on && is_opened_socket ready ws) last kept
    → Matches (is_on && is_opened_socket (put a state ready) ws) last kept
Matches-put is_on ready none last kept a state h k = k
Matches-put is_on ready (some b) last kept a state h k = elim (Bool-cases (a == b)) [
  | inl e ↦ rw (e, h, and_off is_on) tt
  | inr e ↦ rw e k
]

pub Matches-stale :
    (is_on : Bool) (ready : ℕ → ReadyState) (ws : Option ℕ) (last kept : Option LiveConfig) (a : ℕ)
    (state : ReadyState)
    → is_current a ws ≡ false
    → Matches (is_on && is_opened_socket ready ws) last kept
    → Matches (is_on && is_opened_socket (put a state ready) ws) last kept
Matches-stale is_on ready none last kept a state h k = k
Matches-stale is_on ready (some b) last kept a state h k = rw h k

opening-none :
    (state : ReadyState) (last : Option LiveConfig)
    → is_opening state ≡ true
    → Unsent state last
    → last ≡ none
opening-none opening last h unsent = unsent
opening-none absent last h unsent = absurd cc
opening-none opened last h unsent = absurd cc
opening-none closing last h unsent = absurd cc
opening-none closed last h unsent = absurd cc

pub fresh_current :
    (a : ℕ) (ws : Option ℕ) (ready : ℕ → ReadyState) (last : ℕ → Option LiveConfig)
    → is_current a ws ≡ true
    → is_opening (ready a) ≡ true
    → Unsent (ready a) (last a)
    → last_of last ws ≡ none
fresh_current a none ready last h k unsent = absurd cc
fresh_current a (some b) ready last h k unsent =
    rw (← ((==_iff a b).0 h)) (opening-none (ready a) (last a) k unsent)

pub sent-Matches :
    (is_on : Bool) (ready : ℕ → ReadyState) (ws : Option ℕ) (last : ℕ → Option LiveConfig)
    (kept : Option LiveConfig) (config : LiveConfig)
    → (is_on && is_opened_socket ready ws) ≡ true
    → kept ≡ some config
    → ((b : ℕ) → Unsent (ready b) (last b))
    → Matches (is_on && is_opened_socket ready ws) (last_of (sent_to ws config last) ws) kept
      × ((b : ℕ) → Unsent (ready b) (sent_to ws config last b))
sent-Matches is_on ready none last kept config h k unsent = let off = and_off is_on in absurd cc
sent-Matches is_on ready (some a) last kept config h k unsent = (
  rw (h, same_number a, k) refl,
  sent-Unsent a config ready last (and_split is_on (is_opened (ready a)) h).1 unsent,
)
