-- ===== src/Zmodem/Receive/Files.antt =====
-- `case ZFILE`: the file that it opens is under a safe name, is as long as the offset it is written
-- at, and no longer than announced.
use nex_shell.Prelude.{
  ℕ, ◌≤◌, ◌≡◌, refl, ap, ◌∙◌, true, not, ◌||◌, Option, none, some, [], arith, ◌==◌, ltb, Bytes,
  length, Hoare-bind, Hoare-gets, Hoare-Yields, Yields, Yields-pure, Yields-fail, Yields-if,
  Yields-bind,
}
use mathlib.Core.Path.{subst}
use nex_shell.Zmodem.Crc.{checksum_ieee}
use nex_shell.Zmodem.Data.{read_data}
use nex_shell.Zmodem.Disk.{Node, Disk, lookup, lookup-store_self}
use nex_shell.Zmodem.Files.{safe_name, max_u32, parse_metadata}
use nex_shell.Zmodem.Files.Metadata.{Accepted, parse_metadata-Accepted}
use nex_shell.Zmodem.Receive.{
  Local, set_local, let_go, take_hold, system_call, reply, read_resume_crc, resume_existing,
  created, create, opened_file, on_file,
}
use nex_shell.Zmodem.Receive.Keeps.{Kept, Kept-store}
use nex_shell.Zmodem.Receive.Quiet.{
  Quiet, Quiet-pure, Quiet-fail, Quiet-if, Quiet-bind, Quiet-on_wire, Quiet-system_call,
  Quiet-reply, Quiet-read_resume_crc, Asserts, Quiet-Asserts, set_local-Asserts, or_error-Asserts,
}
use nex_shell.Zmodem.Wire.{
  Header, incompatible_destination, prefix_differs, position, position_of, zcrc, zrpos,
}

-- the file that the receiver writes to
pub record Opened (l : Local) : Type 0 where
  pub safe : safe_name l.name ≡ true
  pub content : Bytes
  pub stored : lookup l.name l.disk ≡ some (record { regular = true; content = content })
  pub at_end : length content ≡ l.position
  pub within : l.position ≤ l.size
  pub size_le : l.size ≤ max_u32

-- the receiver between two headers
pub record Between (before : Disk) (l : Local) : Type 0 where
  pub kept : Kept before l.disk
  pub opened : l.file ≡ true → Opened l

-- what an existing entry and the offset to resume at have to do with each other
abbrev Resumes : ℕ → Option Node → ℕ → Type 0
Resumes size none at = at ≡ 0
Resumes size (some node) at = (node.regular ≡ true) × (length node.content ≡ at) × (at ≤ size)

resume_existing-Resumes :
    (meta : Bytes) (size : ℕ) (existing : Option Node)
    → Yields (Resumes size existing) (resume_existing meta size existing)
unfolding resume_existing
resume_existing-Resumes meta size none = Yields-pure 0 refl
resume_existing-Resumes meta size (some node) =
    Yields-if (not node.regular || ltb size (length node.content))
      (λ _. Yields-fail incompatible_destination)
      (λ fits.
        Yields-if (length node.content == 0)
          (λ nil. Yields-pure 0 (ground arith, ground arith, ground arith))
          (λ _. Yields-bind system_call λ _. Yields-bind system_call λ _.
            Yields-bind (reply (position zcrc (length node.content))) λ _.
              Yields-bind (read_resume_crc 5 meta) λ answer.
                Yields-if (not (position_of answer == checksum_ieee node.content))
                  (λ _. Yields-fail prefix_differs)
                  (λ _.
                    Yields-pure (length node.content) (ground arith, ground arith, ground arith))))

pub Quiet-resume_existing :
    (meta : Bytes) (size : ℕ) (existing : Option Node) → Quiet (resume_existing meta size existing)
unfolding resume_existing
Quiet-resume_existing meta size none = Quiet-pure 0
Quiet-resume_existing meta size (some node) =
    Quiet-if (not node.regular || ltb size (length node.content))
      (Quiet-fail incompatible_destination)
      (Quiet-if (length node.content == 0) (Quiet-pure 0) (
        Quiet-bind Quiet-system_call λ _. Quiet-bind Quiet-system_call λ _.
          Quiet-bind (Quiet-reply (position zcrc (length node.content))) λ _.
            Quiet-bind (Quiet-read_resume_crc 5 meta) λ answer.
              Quiet-if (not (position_of answer == checksum_ieee node.content))
                (Quiet-fail prefix_differs) (Quiet-pure (length node.content))))

-- the receiver once it knows the name and the size
record Named (before : Disk) (name : Bytes) (size : ℕ) (l : Local) : Type 0 where
  kept : Kept before l.disk
  name_eq : l.name ≡ name
  size_eq : l.size ≡ size

abbrev Looked : Disk → Bytes → ℕ → Option Node → Local → Type 0
Looked before name size existing l = Named before name size l × (lookup name l.disk ≡ existing)

created-Opened :
    (before : Disk) (name : Bytes) (size at : ℕ) (existing : Option Node) (l : Local)
    → safe_name name ≡ true
    → size ≤ max_u32
    → Resumes size existing at
    → Looked before name size existing l
    → l.position ≡ at
    → Kept before (created name existing l.disk)
      × Opened (record l { disk = created name existing l.disk })
created-Opened before name size at none l safe small z (n, look) p = (
  Kept-store before l.disk name (record { regular = true; content = [] }) safe
      (λ old e. cc (look, e)) n.kept,
  record {
    safe = rw n.name_eq safe;
    content = [];
    stored = rw n.name_eq (lookup-store_self name (record { regular = true; content = [] }) l.disk);
    at_end = omega arith;
    within = omega (arith, n.size_eq);
    size_le = omega (arith, n.size_eq);
  },
)
created-Opened before name size at (some node) l safe small (reg, len, fits) (n, look) p = (
  n.kept,
  record {
    safe = rw n.name_eq safe;
    content = node.content;
    stored =
        rw n.name_eq (look ∙ ap (λ b. some (record { regular = b; content = node.content })) reg);
    at_end = omega arith;
    within = omega (arith, n.size_eq);
    size_le = omega (arith, n.size_eq);
  },
)

module _ (before : Disk) where
  abbrev KeptIn : Local → Type 0
  KeptIn l = Kept before l.disk

  -- the offset chosen, but not yet set
  abbrev Chosen : Bytes → ℕ → Option Node → ℕ → Local → Type 0
  Chosen name size existing at l = Looked before name size existing l × Resumes size existing at

  abbrev Placed : Bytes → ℕ → Option Node → ℕ → Local → Type 0
  Placed name size existing at l = Chosen name size existing at l × (l.position ≡ at)

  abbrev Ready : Local → Type 0
  Ready l = Kept before l.disk × Opened l

  create-Ready :
      (name : Bytes) (size at : ℕ) (existing : Option Node) (l : Local)
      → safe_name name ≡ true
      → size ≤ max_u32
      → Placed name size existing at l
      → Ready (record l { disk = created name (lookup name l.disk) l.disk })
  create-Ready name size at existing l safe small ((looked, resumes), p) =
      rw looked.1 (created-Opened before name size at existing l safe small resumes looked p)

  let_go-Placed :
      (name : Bytes) (size at : ℕ) (existing : Option Node)
      → Asserts
          (Placed name size existing at)
          (set_local let_go)
          (λ _. Placed name size existing at)
          KeptIn
  let_go-Placed name size at existing =
      set_local-Asserts (Placed name size existing at) (Placed name size existing at) KeptIn let_go
        λ l c. (
          (
            (
              record { kept = c.0.0.0.kept; name_eq = c.0.0.0.name_eq; size_eq = c.0.0.0.size_eq },
              c.0.0.1,
            ),
            c.0.1,
          ),
          c.1,
        )

  Ready-Between : (l : Local) → Ready l → Between before (take_hold l)
  Ready-Between l (k, o) = record {
    kept = k;
    opened = λ _. record {
      safe = o.safe;
      content = o.content;
      stored = o.stored;
      at_end = o.at_end;
      within = o.within;
      size_le = o.size_le;
    };
  }

  -- from the metadata on
  opening :
      (meta name : Bytes) (size : ℕ)
      → safe_name name ≡ true
      → size ≤ max_u32
      → Asserts (Between before) (opened_file meta name size) (λ _. Between before) KeptIn
  unfolding opened_file create
  opening meta name size safe small =
      Hoare-bind
        (set_local-Asserts (Between before) (Named before name size) KeptIn
          (λ l. record l { name = name; size = size; position = 0 })
          (λ l b. record { kept = b.kept; name_eq = refl; size_eq = refl }))
        λ _.
          Hoare-bind
            (Quiet-Asserts (Named before name size) KeptIn Quiet-system_call (λ l n. n.kept))
            λ _.
              Hoare-gets (λ r. lookup name r.disk)
                λ existing.
                  Hoare-bind
                    (Hoare-Yields (resume_existing-Resumes meta size existing) (
                      Quiet-Asserts (Looked before name size existing) KeptIn
                        (Quiet-resume_existing meta size existing) (λ l n. n.0.kept)))
                    λ at.
                      Hoare-bind
                        (set_local-Asserts (Chosen name size existing at)
                          (Placed name size existing at) KeptIn (λ l. record l { position = at })
                          (λ l c. (
                            (
                              (
                                record {
                                  kept = c.0.0.kept;
                                  name_eq = c.0.0.name_eq;
                                  size_eq = c.0.0.size_eq;
                                },
                                c.0.1,
                              ),
                              c.1,
                            ),
                            refl,
                          )))
                        λ _. Hoare-bind (let_go-Placed name size at existing) λ _.
                          Hoare-bind
                            (Quiet-Asserts (Placed name size existing at) KeptIn Quiet-system_call
                              (λ l c. c.0.0.0.kept))
                            λ _.
                              Hoare-bind
                                (set_local-Asserts (Placed name size existing at) Ready KeptIn
                                  (λ l. record l {
                                    disk = created name (lookup name l.disk) l.disk;
                                  })
                                  (λ l. create-Ready name size at existing l safe small))
                                λ _.
                                  Hoare-bind
                                    (set_local-Asserts Ready (Between before) KeptIn take_hold
                                      Ready-Between)
                                    λ _.
                                      Hoare-bind
                                        (Quiet-Asserts (Between before) KeptIn Quiet-system_call
                                          (λ l b. b.kept))
                                        λ _.
                                          Quiet-Asserts (Between before) KeptIn
                                            (Quiet-reply (position zrpos at)) (λ l b. b.kept)

  -- Whatever the peer sends after `ZFILE`, a file that is opened is as its header says, and the rest of
  -- the directory is kept.
  pub on_file-Between :
      (h : Header) → Asserts (Between before) (on_file h) (λ _. Between before) KeptIn
  unfolding on_file
  on_file-Between h =
      Hoare-bind
        (Quiet-Asserts (Between before) KeptIn (Quiet-on_wire (read_data h.crc32)) (λ l b. b.kept))
        λ packet.
          or_error-Asserts (Between before) (λ _. Between before) KeptIn (parse_metadata packet.0)
            (λ parsed e.
              let a = subst Accepted e (parse_metadata-Accepted packet.0) in
              opening packet.0 parsed.0 parsed.1 a.0 a.1)
            (λ l b. b.kept)
