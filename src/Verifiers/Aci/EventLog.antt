-- ===== src/Verifiers/Aci/EventLog.antt =====
-- verifiers/aci.py: the dstack event log and its replay. A field of an event may be missing; the
-- hash function is a parameter.
use Prim.Native.Nat.{◌/◌, ◌%◌}
use awesome_private_inferenc.Prelude.{
  ℕ, ◌+◌, Bool, true, false, ◌&&◌, ◌||◌, not, Option, none, some, List, [], ◌∷◌, ◌++◌, ltb,
  if◌then◌else◌, ◌==◌, nat_eq, list_eq, option_eq, select, map, is_some, zero, suc,
}
use awesome_private_inferenc.Prelude.Text.{codes, lower}
use awesome_private_inferenc.Verifiers.Hex.{Bytes, from_hex, to_hex}
use awesome_private_inferenc.Verifiers.Bindings.{without_0x}

pub record Event : Type 0 where
  pub imr : Option ℕ
  pub digest : Option (List ℕ)
  pub event : Option (List ℕ)
  pub event_type : Option ℕ
  pub event_payload : Option (List ℕ)

abbrev pub is_imr3 : Event → Bool
is_imr3 e = e.imr == some 3

-- an entry of another register than IMR3
abbrev pub is_other : Event → Bool
is_other e = is_some e.imr && not (is_imr3 e)

abbrev pub stays : Event → Bool
stays e = not (is_other e)

abbrev pub bind {ℓ κ} : {A : Type ℓ} {B : Type κ} → Option A → (A → Option B) → Option B
bind none f = none
bind (some a) f = f a

abbrev pub zeros : ℕ → Bytes
zeros zero = []
zeros (suc n) = 0 ∷ zeros n

-- `bytes.fromhex(event["digest"])`
abbrev pub digest_bytes : Event → Option Bytes
digest_bytes e = bind e.digest from_hex

-- a code point in UTF-8; a surrogate raises
unfoldable pub utf8_char : ℕ → Option Bytes
utf8_char c =
    if ltb c 128
    then some (c ∷ [])
    else if ltb c 2048
    then some ((192 + c / 64) ∷ (128 + c % 64) ∷ [])
    else if ltb 55295 c && ltb c 57344
    then none
    else if ltb c 65536
    then some ((224 + c / 4096) ∷ (128 + c / 64 % 64) ∷ (128 + c % 64) ∷ [])
    else some
        ((240 + c / 262144) ∷ (128 + c / 4096 % 64) ∷ (128 + c / 64 % 64) ∷ (128 + c % 64) ∷ [])

-- `encode()`
unfoldable pub encode : List ℕ → Option Bytes
encode [] = some []
encode (c ∷ cs) = bind (utf8_char c) (λ first. bind (encode cs) (λ rest. some (first ++ rest)))

module _ (sha384 : Bytes → Bytes) where
  unfoldable pub replay_from : Bytes → List Event → Option Bytes
  replay_from rtmr [] = some rtmr
  replay_from rtmr (e ∷ es) =
      let skipped = replay_from rtmr es in
      let extended = bind (digest_bytes e) (λ d. replay_from (sha384 (rtmr ++ d)) es) in
      bind e.imr (λ n. if n == 3 then extended else skipped)

  -- `_replayed_rtmr3`; `none` is the exception of a missing or malformed digest
  unfoldable pub replayed_rtmr3 : List Event → Option (List ℕ)
  replayed_rtmr3 log = bind (replay_from (zeros 48) log) (λ r. some (to_hex r))

  -- `_event_payload`
  abbrev pub event_payload : Event → Option Bytes
  event_payload e = bind e.event_payload (λ p. from_hex (without_0x p))

  -- `event_type.to_bytes(4, "little")`
  abbrev pub le32 : ℕ → Bytes
  le32 n = (n % 256) ∷ (n / 256 % 256) ∷ (n / 65536 % 256) ∷ (n / 16777216 % 256) ∷ []

  -- `event_type.to_bytes(4, "little") + b":" + name + b":" + payload`, in range
  unfoldable pub preimage : Event → Option Bytes
  preimage e = bind e.event_type (λ t. bind e.event (λ text. bind (encode text) (λ name.
      bind (event_payload e) (λ payload.
        if ltb t 4294967296 then some (le32 t ++ 58 ∷ name ++ 58 ∷ payload) else none))))

  abbrev matches : Option Bytes → Option (List ℕ) → Bool
  matches (some bytes) (some digest) = to_hex (sha384 bytes) == map lower (without_0x digest)
  matches _ _ = false

  -- `_events_bind_payloads`
  unfoldable pub events_bind_payloads : List Event → Bool
  events_bind_payloads [] = true
  events_bind_payloads (e ∷ es) =
      (is_other e || is_imr3 e && matches (preimage e) e.digest) && events_bind_payloads es

abbrev pub is_named : List ℕ → Event → Bool
is_named name e = is_imr3 e && e.event == some name

abbrev pub only : List Event → Option Event
only (e ∷ []) = some e
only _ = none

-- `_unique_event`
unfoldable pub unique_event : List Event → List ℕ → Option Event
unique_event log name = only (select (is_named name) log)

abbrev pub same_event : Event → Event → Bool
same_event a b =
    a.imr == b.imr
    && (a.digest == b.digest
        && (a.event == b.event
            && (a.event_type == b.event_type && a.event_payload == b.event_payload)))

-- `event_log.index(event)`
unfoldable pub index : List Event → Event → Option ℕ
index [] e = none
index (x ∷ xs) e =
    let rest = bind (index xs e) (λ i. some (i + 1)) in if same_event x e then some 0 else rest

abbrev earlier : Option ℕ → Option ℕ → Bool
earlier (some i) (some j) = ltb i j
earlier _ _ = false

abbrev pub before_boundary : List Event → Option Event → Option Event → Bool
before_boundary log (some e) (some boundary) = earlier (index log e) (index log boundary)
before_boundary log _ _ = false

-- `_event_precedes_boot_boundary`
unfoldable pub event_precedes_boot_boundary : List Event → Option Event → Bool
event_precedes_boot_boundary log e = before_boundary log e (unique_event log (codes "boot-mr-done"))
