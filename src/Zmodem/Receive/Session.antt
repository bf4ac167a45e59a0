-- ===== src/Zmodem/Receive/Session.antt =====
-- `case ZDATA` and `case ZEOF`: what they keep.
use nex_shell.Prelude.{
  ℕ, zero, suc, ◌+◌, ◌≤◌, ◌≡◌, refl, sym, ◌∙◌, ap, Bool, true, false, not, ◌||◌, Option, some, ◌++◌,
  arith, ◌==◌, ltb, Bytes, length, length-append, Result, ok, err, Hoare-pure, Hoare-fail, Hoare-if,
  Hoare-bind, Hoare-gets, Hoare-before, Hoare-after,
}
use mathlib.Core.Bool.{false≢true}
use mathlib.Core.Path.{subst}
use nex_shell.Zmodem.Data.{read_data}
use nex_shell.Zmodem.Disk.{Node, Disk, lookup, write_at, lookup-store_self, write_at-end}
use nex_shell.Zmodem.Receive.{
  Local, shut_file, Receive, no_fuel, ready, appended, write_file, data_step, data_loop, on_data,
  on_eof,
}
use nex_shell.Zmodem.Receive.Files.{Opened, Between}
use nex_shell.Zmodem.Receive.Keeps.{Kept, Kept-store, Extends}
use nex_shell.Zmodem.Receive.Quiet.{
  Quiet-try_wire, Quiet-system_call, Quiet-reply, Quiet-report, Quiet-acknowledge, Asserts,
  Quiet-Asserts, set_local-Asserts,
}
use nex_shell.Zmodem.Wire.{
  Error, data_without_file, unexpected_data_position, exceeds_size, incomplete_file, out_of_fuel,
  zrpos, zcrce, zcrcw, Header, position, position_of,
}

not-false : (b : Bool) → not b ≡ false → b ≡ true
not-false true h = refl
not-false false h = sym h

stored-Extends :
    (found : Option Node) (content b : Bytes)
    → found ≡ some (record { regular = true; content = content })
    → (old : Node) → found ≡ some old
    → Extends old (some (record { regular = true; content = content ++ b }))
stored-Extends found content b h old e =
    let same : record { regular = true; content = content } ≡ old = cc (h, e) in
    subst (λ n. Extends n (some (record { regular = true; content = content ++ b }))) same
      (refl, (b, refl))

-- what the file becomes by a write
appended-Opened :
    (before : Disk) (l : Local) (b : Bytes)
    → Kept before l.disk
    → Opened l
    → l.position + length b ≤ l.size
    → Kept before (appended (lookup l.name l.disk) l b)
      × Opened (record l {
        disk = appended (lookup l.name l.disk) l b;
        position = l.position + length b;
      })
appended-Opened before l b k o fits =
    let whole : write_at o.content l.position b ≡ o.content ++ b =
      rw (← o.at_end) (write_at-end o.content b) in
    rw (o.stored, whole)
      (
        Kept-store before l.disk l.name (record { regular = true; content = o.content ++ b }) o.safe
            (stored-Extends (lookup l.name l.disk) o.content b o.stored) k,
        record {
          safe = o.safe;
          content = o.content ++ b;
          stored =
              lookup-store_self l.name (record { regular = true; content = o.content ++ b }) l.disk;
          at_end = rw (length-append o.content b) (ap (λ n. n + length b) o.at_end);
          within = fits;
          size_le = o.size_le;
        },
      )

module _ (before : Disk) where
  abbrev pub KeptIn : Local → Type 0
  KeptIn l = Kept before l.disk

  -- a file is open
  abbrev Working : Local → Type 0
  Working l = Between before l × (l.file ≡ true)

  abbrev Fitting : Bytes → Local → Type 0
  Fitting b l = Working l × (l.position + length b ≤ l.size)

  write_file-Working : (b : Bytes) → Asserts (Fitting b) (write_file b) (λ _. Working) KeptIn
  unfolding write_file
  write_file-Working b =
      Hoare-bind
        (set_local-Asserts (Fitting b) Working KeptIn
          (λ l. record l {
            disk = appended (lookup l.name l.disk) l b;
            position = l.position + length b;
          })
          (λ l w.
            let x = appended-Opened before l b w.0.0.kept (w.0.0.opened w.0.1) w.1 in
            (record { kept = x.0; opened = λ _. x.1 }, w.0.1)))
        λ _. Quiet-Asserts Working KeptIn Quiet-report (λ l w. w.0.kept)

  data_step-Working :
      (again : Receive Unit) (x : Result Error (Bytes × ℕ))
      → Asserts Working again (λ _. Working) KeptIn
      → Asserts Working (data_step again x) (λ _. Working) KeptIn
  unfolding data_step
  data_step-Working again (err e) h =
      Hoare-gets (λ r. r.position)
        λ at.
          Hoare-before (λ r p. p.0)
            (Quiet-Asserts Working KeptIn (Quiet-reply (position zrpos at)) (λ l w. w.0.kept))
  data_step-Working again (ok (b, end)) h =
      Hoare-gets (λ r. not (ltb r.size (r.position + length b)))
        λ fits.
          Hoare-if (not fits) (λ _. Hoare-fail exceeds_size (λ r p. p.0.0.kept))
            λ small.
              Hoare-before (λ r p. (p.0, ground arith))
                (Hoare-bind (Quiet-Asserts (Fitting b) KeptIn Quiet-system_call (λ l w. w.0.0.kept))
                  λ _. Hoare-bind (write_file-Working b) λ _.
                    Hoare-bind
                      (Quiet-Asserts Working KeptIn (Quiet-acknowledge end) (λ l w. w.0.kept))
                      λ _.
                        Hoare-if (end == zcrce || end == zcrcw) (λ _. Hoare-pure tt (λ r w. w))
                          (λ _. h))

  data_loop-Working :
      (fuel : ℕ) (crc32 : Bool)
      → Asserts Working (data_loop no_fuel fuel crc32) (λ _. Working) KeptIn
  unfolding data_loop
  data_loop-Working zero crc32 = Hoare-fail out_of_fuel (λ r w. w.0.kept)
  data_loop-Working (suc fuel) crc32 =
      Hoare-bind (Quiet-Asserts Working KeptIn (Quiet-try_wire (read_data crc32)) (λ l w. w.0.kept))
        λ packet.
          data_step-Working (data_loop no_fuel fuel crc32) packet (data_loop-Working fuel crc32)

  pub on_data-Between :
      (h : Header) → Asserts (Between before) (on_data no_fuel h) (λ _. Between before) KeptIn
  unfolding on_data
  on_data-Between h =
      Hoare-gets (λ r. r)
        λ r.
          Hoare-if (not r.file) (λ _. Hoare-fail data_without_file (λ s p. p.0.kept))
            λ open_file.
              Hoare-if (not (position_of h == r.position))
                (λ _. Hoare-fail unexpected_data_position (λ s p. p.0.kept))
                λ _.
                  Hoare-before (λ s p. (p.0, ap (λ q. q.file) p.1 ∙ not-false r.file open_file))
                    (Hoare-after (λ _ s w. w.0) (λ s k. k)
                      (data_loop-Working (suc (length r.wire.input)) h.crc32))

-- the file that was open last is as long as announced
pub record Complete (before : Disk) (l : Local) : Type 0 where
  pub kept : Kept before l.disk
  pub closed : l.file ≡ false
  pub content : Bytes
  pub stored : lookup l.name l.disk ≡ some (record { regular = true; content = content })
  pub whole : length content ≡ l.size

module _ (before : Disk) where
  abbrev Full : Local → Type 0
  Full l = Working before l × (l.position ≡ l.size)

  closing : (l : Local) → Full l → Complete before (shut_file l)
  closing l ((b, f), p) =
      let o = b.opened f in
      record {
        kept = b.kept;
        closed = refl;
        content = o.content;
        stored = o.stored;
        whole = o.at_end ∙ p;
      }

  -- `case ZEOF` succeeds only if the open file is as long as announced.
  pub on_eof-Complete :
      (h : Header) → Asserts (Between before) (on_eof h) (λ _. Complete before) (KeptIn before)
  unfolding on_eof
  on_eof-Complete h =
      Hoare-gets (λ r. r)
        λ r.
          Hoare-if (not r.file || not (position_of h == r.position) || not (r.position == r.size))
            (λ _. Hoare-fail incomplete_file (λ s p. p.0.kept))
            λ fine.
              Hoare-before {P' = λ s. Full s.local}
                (λ s p. ((p.0, ap (λ q. q.file) p.1 ∙ ground arith), rw p.1 (ground arith)))
                (Hoare-bind
                  (Quiet-Asserts Full (KeptIn before) Quiet-system_call (λ l w. w.0.0.kept))
                  λ _.
                    Hoare-bind
                      (Quiet-Asserts Full (KeptIn before) Quiet-system_call (λ l w. w.0.0.kept))
                      λ _.
                        Hoare-bind
                          (set_local-Asserts Full (Complete before) (KeptIn before) shut_file
                            closing)
                          λ _.
                            Quiet-Asserts (Complete before) (KeptIn before) (Quiet-reply ready)
                              (λ l c. c.kept))

  pub Complete-Between : (l : Local) → Complete before l → Between before l
  Complete-Between l c = record {
    kept = c.kept;
    opened = λ e. absurd (false≢true (sym c.closed ∙ e));
  }
