-- ===== src/Inode/Read.antt =====
-- inode_read_at returns the bytes of the file.
use pintos_nightmare.Base.{
  ltb, leb, ◌==◌, if◌then◌else◌, Bool-cases, ℕ, zero, suc, ◌+◌, ◌-◌, ◌/◌, ◌%◌, ◌≤◌, ◌<◌, ◌≡◌, refl,
  sym, ap, ◌∙◌, subst, inl, inr, true, false, ◌&&◌, ◌||◌, arith, dec_lt,
}
use pintos_nightmare.Inode.{
  Disk, InodeDisk, byte_to_sector, chunk_size, memcpy, read_loop, read_at, byte,
}
use pintos_nightmare.Inode.Chunk.{available, chunk-Round, available-zero, byte-in_sector}

module _ (d : Disk) (inode : InodeDisk) where
  -- `r` is what the loop returns when `n` more bytes are to be had at `offset`.
  pub record Reads (buffer : ℕ → ℕ) (offset done n : ℕ) (r : ℕ × (ℕ → ℕ)) : Type 0 where
    pub count : r.0 ≡ done + n
    pub bytes :
        (k : ℕ)
        → r.1 k ≡ (
            if leb done k && ltb k (done + n) then byte d inode (offset + (k - done)) else buffer k)

  -- Copying `c` bytes out of one sector and then `n` bytes reads `c + n` bytes.
  Reads-round :
      (buffer : ℕ → ℕ) (offset done o c n s : ℕ) (r : ℕ × (ℕ → ℕ))
      → offset % 512 ≡ o
      → o + c ≤ 512
      → s ≡ inode.start + offset / 512
      → Reads (memcpy buffer done (d s) o c) (offset + c) (done + c) n r
      → Reads buffer offset done (c + n) r
  Reads-round buffer offset done o c n s r eo fits es rest = record {
    count = omega (arith, rest.count);
    bytes = λ k. elim (dec_lt k (done + c)) [
      | yes near ↦ elim (dec_lt k done) [
        | yes below ↦ rest.bytes k ∙ ground arith
        | no inside ↦
            rest.bytes k ∙ ground (arith, byte-in_sector d inode offset (k - done) (omega arith))
      ]
      | no far ↦
          let e : offset + c + (k - (done + c)) ≡ offset + (k - done) = omega arith in
          rest.bytes k ∙ ground (arith, ap (byte d inode) e)
    ];
  }

  Reads-stop :
      (buffer : ℕ → ℕ) (offset done n : ℕ) → n ≡ 0 → Reads buffer offset done n (done, buffer)
  Reads-stop buffer offset done n h = record { count = omega arith; bytes = λ k. ground arith }

  Reads-next :
      (buffer : ℕ → ℕ) (size offset done o c : ℕ) {r : ℕ × (ℕ → ℕ)}
      → (size == 0 || chunk_size inode size offset == 0) ≡ false
      → offset % 512 ≡ o
      → c ≡ chunk_size inode size offset
      → Reads
          (memcpy buffer done (d (byte_to_sector inode offset)) o c)
          (offset + chunk_size inode size offset)
          (done + chunk_size inode size offset)
          (available inode
            (size - chunk_size inode size offset)
            (offset + chunk_size inode size offset))
          r
      → Reads buffer offset done (available inode size offset) r
  Reads-next buffer size offset done o c {r} go eo ec rest =
      let v = chunk-Round inode size offset go in
      subst (λ n. Reads buffer offset done n r) (sym v.rest)
        (Reads-round buffer offset done o (chunk_size inode size offset) _
          (byte_to_sector inode offset) r eo (omega (arith, v.in_sector)) v.sector
          (subst
            (λ n.
              Reads (memcpy buffer done (d (byte_to_sector inode offset)) o n)
                (offset + chunk_size inode size offset) (done + chunk_size inode size offset)
                (available inode (size - chunk_size inode size offset)
                  (offset + chunk_size inode size offset))
                r)
            ec rest))

  left :
      (fuel size offset : ℕ)
      → size < suc fuel
      → (size == 0 || chunk_size inode size offset == 0) ≡ false
      → size - chunk_size inode size offset < fuel
  left fuel size offset h go =
      let v = chunk-Round inode size offset go in omega (arith, v.some_bytes, v.in_size)

  read_loop-Reads :
      (fuel : ℕ) (buffer : ℕ → ℕ) (size offset done : ℕ)
      → size < fuel
      → Reads buffer offset done
          (available inode size offset)
          (read_loop true d inode fuel buffer size offset done)
  unfolding read_loop
  read_loop-Reads zero buffer size offset done h = elim h [ ]
  read_loop-Reads (suc fuel) buffer size offset done h =
      elim (Bool-cases (size == 0 || chunk_size inode size offset == 0)) [
        | inl stop ↦
            rw stop (Reads-stop buffer offset done _ (available-zero inode size offset stop))
        | inr go ↦
            let c = chunk_size inode size offset in
            let rest = λ (o n : ℕ).
              read_loop-Reads fuel (memcpy buffer done (d (byte_to_sector inode offset)) o n)
                (size - c) (offset + c) (done + c) (left fuel size offset h go) in
            elim (Bool-cases (offset % 512 == 0 && c == 512)) [
              | inl full ↦
                  rw (go, full)
                    (Reads-next buffer size offset done 0 512 go (ground arith) (ground arith)
                      (rest 0 512))
              | inr part ↦
                  rw (go, part)
                    (Reads-next buffer size offset done (offset % 512) c go refl refl
                      (rest (offset % 512) c))
            ]
      ]

-- When a bounce buffer can be had, inode_read_at copies the bytes of the file from the offset on,
-- as many as were asked for and lie in the file, to the start of the buffer, returns their number,
-- and leaves the rest of the buffer alone.
pub read_at-Reads :
    (d : Disk) (inode : InodeDisk) (buffer : ℕ → ℕ) (size offset : ℕ)
    → Reads d inode buffer offset 0
        (available inode size offset)
        (read_at true d inode buffer size offset)
unfolding read_at
read_at-Reads d inode buffer size offset =
    read_loop-Reads d inode (size + 1) buffer size offset 0 (omega arith)
