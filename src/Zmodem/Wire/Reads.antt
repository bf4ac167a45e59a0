-- ===== src/Zmodem/Wire/Reads.antt =====
-- What every read of the codec has in common: it writes nothing, and leaves a shorter input when it
-- succeeds. One rule for each way to build a read.
use nex_shell.Prelude.{
  ℕ, ◌≤◌, ◌<◌, ◌≡◌, refl, ap, Bool, true, false, Option, none, some, List, [], ◌∷◌, arith,
  if◌then◌else◌, Bytes, length, Result, ok, err, pure, fail, continue, ◌>>=◌,
}
use nex_shell.Zmodem.Wire.{
  Error, Codec, Wire, read_in, read_byte, raw_in, raw, unescape, escaped, answer_write, write,
}

-- The codec after a read: the same but for the input, of which nothing came back.
pub record Later (c c' : Codec) : Type 0 where
  pub input_le : length c'.input ≤ length c.input
  pub broken_eq : c'.broken ≡ c.broken
  pub output_eq : c'.output ≡ c.output
  pub refusals_eq : c'.refusals ≡ c.refusals

pub Later-refl : (c : Codec) → Later c c
Later-refl c = record {
  input_le = omega arith;
  broken_eq = refl;
  output_eq = refl;
  refusals_eq = refl;
}

pub Later-trans : {a b c : Codec} → Later a b → Later b c → Later a c
Later-trans p q = ground arith

pub record Reads {A : Type 0} (m : Wire A) : Type 0 where
  pub later : (c : Codec) → Later c (m c).1

-- a read that takes a byte at least when it succeeds
pub record Takes {A : Type 0} (m : Wire A) : Type 0 where
  pub later : (c : Codec) → Later c (m c).1
  pub shorter : (c : Codec) (a : A) → (m c).0 ≡ ok a → length (m c).1.input < length c.input

module _ {A : Type 0} where
  pub Reads-pure : (a : A) → Reads (pure a)
  Reads-pure a = record { later = Later-refl }

  pub Reads-fail : (e : Error) → Reads (fail {A = A} e)
  Reads-fail e = record { later = Later-refl }

  pub Takes-fail : (e : Error) → Takes (fail {A = A} e)
  Takes-fail e = record { later = Later-refl; shorter = λ c a h. cc }

  pub Takes-Reads : {m : Wire A} → Takes m → Reads m
  Takes-Reads t = record { later = t.later }

  pub Reads-if : (b : Bool) {m n : Wire A} → Reads m → Reads n → Reads (if b then m else n)
  Reads-if true p q = p
  Reads-if false p q = q

  pub Takes-if : (b : Bool) {m n : Wire A} → Takes m → Takes n → Takes (if b then m else n)
  Takes-if true p q = p
  Takes-if false p q = q

module _ {A B : Type 0} where
  after-Later :
      (c : Codec) (r : Result Error A × Codec) (f : A → Wire B)
      → Later c r.1
      → ((a : A) → Reads (f a))
      → Later c (continue r f).1
  after-Later c (ok a, d) f p q = Later-trans p ((q a).later d)
  after-Later c (err e, d) f p q = p

  pub Reads-bind :
      {m : Wire A} {f : A → Wire B} → Reads m → ((a : A) → Reads (f a)) → Reads (m >>= f)
  Reads-bind {m} {f} p q = record { later = λ c. after-Later c (m c) f (p.later c) q }

  after-shorter :
      (c : Codec) (r : Result Error A × Codec) (f : A → Wire B) (b : B)
      → ((a : A) → r.0 ≡ ok a → length r.1.input < length c.input)
      → ((a : A) → Reads (f a))
      → (continue r f).0 ≡ ok b
      → length (continue r f).1.input < length c.input
  after-shorter c (ok a, d) f b p q h = let l = (q a).later d in omega (arith, p a refl, l.input_le)
  after-shorter c (err e, d) f b p q h = cc

  pub Takes-bind :
      {m : Wire A} {f : A → Wire B} → Takes m → ((a : A) → Reads (f a)) → Takes (m >>= f)
  Takes-bind {m} {f} p q = record {
    later = λ c. after-Later c (m c) f (p.later c) q;
    shorter = λ c b h. after-shorter c (m c) f b (p.shorter c) q h;
  }

raw_in-Later : (b : Bytes) (c : Codec) → c.input ≡ b → Later c (raw_in b c).1
unfolding raw_in
raw_in-Later [] c e = Later-refl c
raw_in-Later (v ∷ b) c e = ground (arith, raw_in-Later b (record c { input = b }) refl, ap length e)

raw_in-shorter :
    (b : Bytes) (c : Codec) (v : ℕ)
    → c.input ≡ b
    → (raw_in b c).0 ≡ ok v
    → length (raw_in b c).1.input < length c.input
unfolding raw_in
raw_in-shorter [] c v e h = cc
raw_in-shorter (w ∷ b) c v e h =
    ground (arith, raw_in-shorter b (record c { input = b }) v refl, ap length e)

pub Takes-raw : Takes raw
unfolding raw
Takes-raw = record {
  later = λ c. raw_in-Later c.input c refl;
  shorter = λ c v h. raw_in-shorter c.input c v refl h;
}

pub Reads-unescape : (v : ℕ) → Reads (unescape v)
unfolding unescape
Reads-unescape v = search (Reads-pure, Reads-fail, Reads-if)

-- `Takes-bind` asks of the first read to take a byte; the rules for `Takes` come before it.
pub ruleset read_rules =
    (Reads-pure, Reads-fail, Takes-fail, Takes-Reads, Reads-if, Takes-if, Reads-bind, Takes-bind)

pub Takes-escaped : Takes escaped
unfolding escaped
Takes-escaped = search (read_rules, Takes-raw, Reads-unescape)

read_in-Later : (b : Bytes) (c : Codec) → c.input ≡ b → Later c (read_in b c).1
unfolding read_in
read_in-Later [] c e = Later-refl c
read_in-Later (v ∷ b) c e = ground (arith, ap length e)

pub Reads-read_byte : Reads read_byte
unfolding read_byte
Reads-read_byte = record { later = λ c. read_in-Later c.input c refl }

answer_write-input :
    (answers : List (Option Error)) (b : Bytes) (c : Codec)
    → (answer_write answers b c).1.input ≡ c.input
unfolding answer_write
answer_write-input [] b c = refl
answer_write-input (none ∷ later) b c = refl
answer_write-input (some e ∷ later) b c = refl

-- Writing reads nothing.
pub write-input : (b : Bytes) (c : Codec) → (write b c).1.input ≡ c.input
unfolding write
write-input b c = answer_write-input c.refusals b c
