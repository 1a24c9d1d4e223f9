-- ===== src/Inode/Write.antt =====
-- inode_write_at changes the bytes of the file that it is asked to change, and nothing else on
-- the device.
use pintos_nightmare.Base.{
  ltb, leb, ◌==◌, if◌then◌else◌, Bool-cases, ℕ, zero, suc, ◌+◌, ◌-◌, ◌*◌, ◌/◌, ◌%◌, ◌≤◌, ◌<◌, ◌≡◌,
  sym, ◌∙◌, subst, inl, inr, Bool, true, false, ◌&&◌, ◌||◌, arith, ℕ_discrete,
}
use pintos_nightmare.Inode.{
  Disk, Sector, InodeDisk, byte_to_sector, chunk_size, memcpy, block_write, bounce, write_loop,
  write_at, byte, read_at,
}
use pintos_nightmare.Inode.Chunk.{available, chunk-Round, available-zero}
use pintos_nightmare.Inode.Read.{read_at-Reads}

-- The position in the file of byte `k` of sector `s`.
abbrev pub position : InodeDisk → ℕ → ℕ → ℕ
position inode s k = (s - inode.start) * 512 + k

-- Whether byte `k` of sector `s` is one of the `n` bytes at `offset` of the file.
abbrev pub covers : InodeDisk → ℕ → ℕ → ℕ → ℕ → Bool
covers inode offset n s k =
    leb inode.start s && (leb offset (position inode s k) && ltb (position inode s k) (offset + n))

module _ (inode : InodeDisk) (buffer : ℕ → ℕ) where
  -- `r` is what the loop returns when `n` more bytes are written at `offset`, from `buffer + done`.
  pub record Writes (d : Disk) (offset done n : ℕ) (r : ℕ × Disk) : Type 0 where
    pub count : r.0 ≡ done + n
    pub bytes :
        (s k : ℕ)
        → k < 512
        → r.1 s k ≡ (
            if covers inode offset n s k
            then buffer (done + (position inode s k - offset))
            else d s k)

  Writes-stop : (d : Disk) (offset done n : ℕ) → n ≡ 0 → Writes d offset done n (done, d)
  Writes-stop d offset done n h = record { count = omega arith; bytes = λ s k lt. ground arith }

  -- `v` is sector `offset / 512` of the file with `c` bytes at `offset` replaced.
  abbrev Replaces : Disk → ℕ → ℕ → ℕ → Sector → Type 0
  Replaces d offset done c v =
      (k : ℕ)
      → k < 512
      → v k ≡ (
          if leb (offset % 512) k && ltb k (offset % 512 + c)
          then buffer (done + (k - offset % 512))
          else d (inode.start + offset / 512) k)

  Writes-round :
      (d : Disk) (offset done c n : ℕ) (v : Sector) (r : ℕ × Disk)
      → offset % 512 + c ≤ 512
      → 0 < c
      → Replaces d offset done c v
      → Writes (block_write d (inode.start + offset / 512) v) (offset + c) (done + c) n r
      → Writes d offset done (c + n) r
  Writes-round d offset done c n v r fits pos new rest = record {
    count = omega (arith, rest.count);
    bytes = λ s k lt. elim (ℕ_discrete (inode.start + offset / 512) s) [
      | yes here ↦ rest.bytes s k lt ∙ ground (arith, new k lt)
      | no other ↦ rest.bytes s k lt ∙ ground arith
    ];
  }

  Writes-next :
      (d : Disk) (size offset done : ℕ) (v : Sector) {r : ℕ × Disk}
      → (size == 0 || chunk_size inode size offset == 0) ≡ false
      → Replaces d offset done (chunk_size inode size offset) v
      → Writes
          (block_write d (byte_to_sector inode offset) v)
          (offset + chunk_size inode size offset)
          (done + chunk_size inode size offset)
          (available inode
            (size - chunk_size inode size offset)
            (offset + chunk_size inode size offset))
          r
      → Writes d offset done (available inode size offset) r
  Writes-next d size offset done v {r} go new rest =
      let w = chunk-Round inode size offset go in
      subst (λ n. Writes d offset done n r) (sym w.rest)
        (Writes-round d offset done (chunk_size inode size offset) _ v r w.in_sector w.some_bytes
          new
          (subst
            (λ s.
              Writes (block_write d s v) (offset + chunk_size inode size offset)
                (done + chunk_size inode size offset)
                (available inode (size - chunk_size inode size offset)
                  (offset + chunk_size inode size offset))
                r)
            w.sector rest))

  left :
      (fuel size offset : ℕ)
      → size < suc fuel
      → (size == 0 || chunk_size inode size offset == 0) ≡ false
      → size - chunk_size inode size offset < fuel
  left fuel size offset h go =
      let v = chunk-Round inode size offset go in omega (arith, v.some_bytes, v.in_size)

  Replaces-full :
      (d : Disk) (offset done c : ℕ)
      → (offset % 512 == 0 && c == 512) ≡ true
      → Replaces d offset done c (λ k. buffer (done + k))
  Replaces-full d offset done c full k lt = ground arith

  Replaces-part :
      (d : Disk) (offset done c s : ℕ)
      → s ≡ inode.start + offset / 512
      → Replaces d offset done c (memcpy (bounce d s (offset % 512) c) (offset % 512) buffer done c)
  Replaces-part d offset done c s e k lt = ground arith

  write_loop-Writes :
      (fuel : ℕ) (d : Disk) (size offset done : ℕ)
      → size < fuel
      → Writes d offset done
          (available inode size offset)
          (write_loop true inode buffer fuel d size offset done)
  unfolding write_loop
  write_loop-Writes zero d size offset done h = elim h [ ]
  write_loop-Writes (suc fuel) d size offset done h =
      elim (Bool-cases (size == 0 || chunk_size inode size offset == 0)) [
        | inl stop ↦ rw stop (Writes-stop d offset done _ (available-zero inode size offset stop))
        | inr go ↦
            let c = chunk_size inode size offset in
            let s = byte_to_sector inode offset in
            let rest = λ (v : Sector).
              write_loop-Writes fuel (block_write d s v) (size - c) (offset + c) (done + c)
                (left fuel size offset h go) in
            elim (Bool-cases (offset % 512 == 0 && c == 512)) [
              | inl full ↦
                  rw (go, full)
                    (Writes-next d size offset done (λ k. buffer (done + k)) go
                      (Replaces-full d offset done c full) (rest (λ k. buffer (done + k))))
              | inr part ↦
                  let v : Sector =
                    memcpy (bounce d s (offset % 512) c) (offset % 512) buffer done c in
                  rw (go, part)
                    (Writes-next d size offset done v go
                      (Replaces-part d offset done c s (chunk-Round inode size offset go).sector)
                      (rest v))
            ]
      ]

-- When a bounce buffer can be had, inode_write_at puts the bytes of the buffer into the file at
-- the offset, as many as were asked for and fit in the file, returns their number, and leaves
-- every other byte of the device alone.
pub write_at-Writes :
    (d : Disk) (inode : InodeDisk) (buffer : ℕ → ℕ) (size offset : ℕ)
    → Writes inode buffer d offset 0
        (available inode size offset)
        (write_at true inode buffer d size offset)
unfolding write_at
write_at-Writes d inode buffer size offset =
    write_loop-Writes inode buffer (size + 1) d size offset 0 (omega arith)

written :
    (inode : InodeDisk) (buffer : ℕ → ℕ) (d : Disk) (offset n k : ℕ) (r : ℕ × Disk)
    → Writes inode buffer d offset 0 n r
    → k < n
    → byte r.1 inode (offset + (k - 0)) ≡ buffer k
written inode buffer d offset n k r w lt =
    w.bytes (inode.start + (offset + (k - 0)) / 512) ((offset + (k - 0)) % 512) (omega arith)
    ∙ ground arith

-- Reading at an offset what was just written there gives back the bytes that were written, as many
-- as the write reported.
pub read_at-write_at :
    (d : Disk) (inode : InodeDisk) (buffer other : ℕ → ℕ) (size offset k : ℕ)
    → (let w = write_at true inode buffer d size offset in
        let r = read_at true w.1 inode other size offset in
        (r.0 ≡ w.0) × (k < w.0 → r.1 k ≡ buffer k))
read_at-write_at d inode buffer other size offset k =
    let w = write_at-Writes d inode buffer size offset in
    let d' = (write_at true inode buffer d size offset).1 in
    let r = read_at-Reads d' inode other size offset in
    (
      r.count ∙ sym w.count,
      λ lt.
          r.bytes k
          ∙ ground (
            arith,
            w.count,
            written inode buffer d offset (available inode size offset) k
                (write_at true inode buffer d size offset) w,
          ),
    )
