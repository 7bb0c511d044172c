-- ===== src/Ipc/Framing.antt =====
-- Messages on a stream, behind their length: `write_message` and `read_frame` of
-- crates/app-powerd-core/src/ipc/protocol.rs.
use app_powerd.Prelude.{
  ℕ, zero, suc, ◌+◌, ◌*◌, ◌/◌, ◌%◌, ◌^◌, ◌≡◌, ◌≤◌, ◌<◌, refl, subst, true, false, Bool-cases, inl,
  inr, List, [], ◌∷◌, ◌++◌, Option, none, some, length, take, ltb, arith, if◌then◌else◌,
}

abbrev pub Bytes : Type 0
Bytes = List ℕ

-- How a stream ends: the peer closes it, or sends nothing more within the ten seconds of a read.
pub data Ending : Type 0 where
  closed silent : Ending

-- What the peer sends.
pub record Stream : Type 0 where
  pub bytes : Bytes
  pub ending : Ending

pub data StreamError : Type 0 where
  unexpected_eof timed_out message_too_large broken_pipe no_json : StreamError

pub data Received : Type 0 where
  ok : Bytes → Stream → Received
  err : StreamError → Received

abbrev pub max_message_size : ℕ
max_message_size = 65536

-- `to_be_bytes` and `from_be_bytes` of 32 bits.
abbrev pub to_be_bytes : ℕ → Bytes
to_be_bytes n = n / 16777216 % 256 ∷ n / 65536 % 256 ∷ n / 256 % 256 ∷ n % 256 ∷ []

unfoldable pub from_be_bytes : ℕ → Bytes → ℕ
from_be_bytes acc [] = acc
from_be_bytes acc (b ∷ bs) = from_be_bytes (acc * 256 + b) bs

-- What is written for a message; `none` is the refusal of one too large for the prefix.
unfoldable pub write_message : Bytes → Option Bytes
write_message json =
    if ltb (length json) (2 ^ 32) then some (to_be_bytes (length json) ++ json) else none

abbrev ending_error : Ending → StreamError
ending_error closed = unexpected_eof
ending_error silent = timed_out

-- `read_exact` under the timeout.
unfoldable pub read_from : ℕ → Bytes → Ending → Received
read_from zero bs e = ok [] (record { bytes = bs; ending = e })
read_from (suc n) [] e = err (ending_error e)
read_from (suc n) (b ∷ bs) e = elim (read_from n bs e) [
  | ok got rest ↦ ok (b ∷ got) rest
  | err x ↦ err x
]

abbrev pub read_exact : ℕ → Stream → Received
read_exact n s = read_from n s.bytes s.ending

unfoldable pub read_body : ℕ → Stream → Received
unfolding read_from
read_body len s = if ltb max_message_size len then err message_too_large else read_exact len s

unfoldable pub read_announced : Received → Received
unfolding read_body from_be_bytes
read_announced (err x) = err x
read_announced (ok header rest) = read_body (from_be_bytes 0 header) rest

-- The length, and then so many bytes.
unfoldable pub read_frame : Stream → Received
unfolding read_announced
read_frame s = read_announced (read_exact 4 s)

pub read_from-append :
    (got more : Bytes) (e : Ending)
    → read_from (length got) (got ++ more) e ≡ ok got (record { bytes = more; ending = e })
unfolding read_from
read_from-append [] more e = refl
read_from-append (b ∷ got) more e = rw (read_from-append got more e) refl

-- The prefix holds the length.
pub from_be_bytes-to_be_bytes : (n : ℕ) → n < 4294967296 → from_be_bytes 0 (to_be_bytes n) ≡ n
unfolding from_be_bytes
from_be_bytes-to_be_bytes n h = omega arith

pub write_message-small :
    (json : Bytes)
    → length json ≤ 65536
    → write_message json ≡ some (to_be_bytes (length json) ++ json)
unfolding write_message
write_message-small json h = ground arith

pub write_message-fits :
    (json : Bytes)
    → ltb (length json) (2 ^ 32) ≡ true
    → write_message json ≡ some (to_be_bytes (length json) ++ json)
unfolding write_message
write_message-fits json h = rw h refl

write_refused :
    (json sent : Bytes) → ltb (length json) (2 ^ 32) ≡ false → write_message json ≡ some sent → ⊥
unfolding write_message
write_refused json sent f w = let refused : write_message json ≡ none = rw f refl in cc (w, refused)

read_body-small :
    (json more : Bytes) (e : Ending)
    → length json ≤ 65536
    → read_body (length json) (record { bytes = json ++ more; ending = e })
      ≡ ok json (record { bytes = more; ending = e })
unfolding read_body
read_body-small json more e h =
    let small : ltb 65536 (length json) ≡ false = ground arith in
    rw (small, read_from-append json more e) refl

read_frame-framed :
    (json more : Bytes) (e : Ending)
    → length json ≤ 65536
    → read_frame (record { bytes = (to_be_bytes (length json) ++ json) ++ more; ending = e })
      ≡ ok json (record { bytes = more; ending = e })
unfolding read_frame read_announced read_from
read_frame-framed json more e h =
    let lt : length json < 4294967296 = omega (arith, h) in
    rw (from_be_bytes-to_be_bytes (length json) lt) (read_body-small json more e h)

-- A message that is written is read back as it was, and the stream stands at what follows it: when
-- it is of no more than 64 KiB.
pub read_frame-write_message :
    (json more sent : Bytes) (e : Ending)
    → length json ≤ 65536
    → write_message json ≡ some sent
    → read_frame (record { bytes = sent ++ more; ending = e })
      ≡ ok json (record { bytes = more; ending = e })
read_frame-write_message json more sent e h w =
    let same : to_be_bytes (length json) ++ json ≡ sent = cc (w, write_message-small json h) in
    subst
      (λ b.
        read_frame (record { bytes = b ++ more; ending = e })
        ≡ ok json (record { bytes = more; ending = e }))
      same (read_frame-framed json more e h)

-- A message longer than 64 KiB is refused by its length alone: four bytes that announce it are
-- enough, whatever follows them on the stream, be it nothing, and however the stream ends. These are
-- the bytes with which the message would be written.
pub read_frame-too_large :
    (json more sent : Bytes) (e : Ending)
    → 65536 < length json
    → write_message json ≡ some sent
    → read_frame (record { bytes = take 4 sent ++ more; ending = e }) ≡ err message_too_large
unfolding read_frame read_announced read_from read_body take
read_frame-too_large json more sent e h w = elim (Bool-cases (ltb (length json) (2 ^ 32))) [
  | inr f ↦ absurd (write_refused json sent f w)
  | inl l ↦
      let lt : length json < 4294967296 = ground (arith, l) in
      let big : ltb 65536 (length json) ≡ true = ground (arith, h) in
      let same : to_be_bytes (length json) ++ json ≡ sent = cc (w, write_message-fits json l) in
      subst
        (λ b. read_frame (record { bytes = take 4 b ++ more; ending = e }) ≡ err message_too_large)
        same (rw (from_be_bytes-to_be_bytes (length json) lt) (rw big refl))
]

-- What was read satisfies `P`; an error promises nothing.
abbrev pub Reads : (Bytes → Type 0) → Received → Type 0
Reads P (ok got rest) = P got
Reads P (err x) = Unit

Reads-cons :
    (n b : ℕ) (r : Received)
    → Reads (λ got. length got ≡ n) r
    → Reads (λ got. length got ≡ suc n) (elim r [ ok got rest ↦ ok (b ∷ got) rest | err x ↦ err x ])
Reads-cons n b (ok got rest) h = omega (arith, h)
Reads-cons n b (err x) h = tt

read_from-length :
    (n : ℕ) (bs : Bytes) (e : Ending) → Reads (λ got. length got ≡ n) (read_from n bs e)
unfolding read_from
read_from-length zero bs e = refl
read_from-length (suc n) [] e = tt
read_from-length (suc n) (b ∷ bs) e = Reads-cons n b (read_from n bs e) (read_from-length n bs e)

Reads-bounded :
    (len : ℕ) (r : Received)
    → len ≤ 65536
    → Reads (λ got. length got ≡ len) r
    → Reads (λ got. length got ≤ 65536) r
Reads-bounded len (ok got rest) small h = omega (arith, small, h)
Reads-bounded len (err x) small h = tt

read_body-bounded : (len : ℕ) (s : Stream) → Reads (λ got. length got ≤ 65536) (read_body len s)
unfolding read_body
read_body-bounded len s = elim (Bool-cases (ltb 65536 len)) [
  | inl big ↦ rw big tt
  | inr small ↦
      let le : len ≤ 65536 = ground (arith, small) in
      rw small (Reads-bounded len (read_exact len s) le (read_from-length len s.bytes s.ending))
]

read_announced-bounded : (r : Received) → Reads (λ got. length got ≤ 65536) (read_announced r)
unfolding read_announced
read_announced-bounded (err x) = tt
read_announced-bounded (ok header rest) = read_body-bounded (from_be_bytes 0 header) rest

-- Whatever a peer sends, no more than 64 KiB of it becomes a message.
pub read_frame-bounded : (s : Stream) → Reads (λ got. length got ≤ 65536) (read_frame s)
unfolding read_frame
read_frame-bounded s = read_announced-bounded (read_exact 4 s)
