-- ===== src/FreeMap/Alloc.antt =====
-- free_map_allocate hands out free sectors only, and free_map_release takes back what it handed
-- out.
use pintos_nightmare.Base.{
  ◌==◌, if◌then◌else◌, Bool-cases, ℕ, ◌+◌, ◌≤◌, ◌<◌, ◌≡◌, refl, sym, ◌∙◌, subst, ◌⊎◌, inl, inr,
  Bool, true, false, not, ◌&&◌, Option, none, some, arith,
}
use pintos_nightmare.Bitmap.{Bitmap, bitmap_error}
use pintos_nightmare.Bitmap.Bits.{bit, IsValid}
use pintos_nightmare.Bitmap.Range.{
  Uniform, Some, within, Filled, set_multiple-Filled, all-Uniform, all-true,
}
use pintos_nightmare.Bitmap.Scan.{FirstFit, NoFit, scan_and_flip-FirstFit}
use pintos_nightmare.FreeMap.{FreeMap, allocate, release}

-- Two maps agree on every sector.
abbrev pub Same : FreeMap → FreeMap → Type 0
Same m m' = (j : ℕ) → bit m'.map j ≡ bit m.map j

-- What a call of free_map_allocate that returns sector `k` has done.
pub record Allocated (m : FreeMap) (cnt k : ℕ) (m' : FreeMap) : Type 0 where
  pub was_free : FirstFit m.map 0 cnt false k
  pub filled : Filled m.map k cnt true m'.map
  pub same_file : m'.file_open ≡ m.file_open

undo :
    (b b' b'' : Bitmap) (k cnt : ℕ)
    → Uniform b k cnt false
    → Filled b k cnt true b'
    → Filled b' k cnt false b''
    → (j : ℕ) → bit b'' j ≡ bit b j
undo b b' b'' k cnt free f g j = elim (Bool-cases (within k cnt j)) [
  | inl e ↦ g.now j ∙ inside e ∙ sym (free j (lower e) (upper e))
  | inr e ↦ g.now j ∙ outside e ∙ f.now j ∙ outside' e
]
  where
    inside : within k cnt j ≡ true → (if within k cnt j then false else bit b' j) ≡ false
    inside e = rw e

    outside : within k cnt j ≡ false → (if within k cnt j then false else bit b' j) ≡ bit b' j
    outside e = rw e

    outside' : within k cnt j ≡ false → (if within k cnt j then true else bit b j) ≡ bit b j
    outside' e = rw e

    lower : within k cnt j ≡ true → k ≤ j
    lower e = ground arith

    upper : within k cnt j ≡ true → j < k + cnt
    upper e = ground arith

module _ (m : FreeMap) (v : IsValid m.map) (cnt : ℕ) where
  -- On a valid map free_map_allocate does not panic. If the map's file can be written, or is not
  -- open, and there is a group of free sectors, it returns the first one, whose sectors are
  -- then in use while no other sector has changed. It returns nothing exactly when there is no such group or
  -- the file is open and the write fails; then every sector is as it was.
  pub allocate-Allocated :
      (write_ok : Bool)
      → (((m.file_open && not write_ok) ≡ false)
          × ((k : ℕ) × (m' : FreeMap) × (allocate write_ok m cnt ≡ some (m', some k))
              × Allocated m cnt k m'))
        ⊎ ((NoFit m.map 0 cnt false ⊎ ((m.file_open ≡ true) × (write_ok ≡ false)))
            × (m' : FreeMap) × (allocate write_ok m cnt ≡ some (m', none))
            × IsValid m'.map
            × Same m m')
  unfolding allocate
  allocate-Allocated write_ok = elim (scan_and_flip-FirstFit v 0 cnt false (omega arith)) [
    | inl (k, b, e, f, r) ↦
        let ne : (k == bitmap_error) ≡ false = ground (arith, v.fits, f.fits) in
        elim (Bool-cases (m.file_open && not write_ok)) [
          | inl fail ↦
              let (b', e', g) = set_multiple-Filled r.valid k cnt (in_map k b f r) false in
              inr (
                inr (both fail),
                record m { map = b' },
                rw (e, ne, fail, e') refl,
                g.valid,
                undo m.map b b' k cnt f.group r g,
              )
          | inr ok ↦ inl (
            ok,
            (
              k,
              record m { map = b },
              rw (e, ne, ok) refl,
              record { was_free = f; filled = r; same_file = refl },
            ),
          )
        ]
    | inr (e, n) ↦ inr (inl n, m, rw e refl, v, λ j. refl)
  ]
    where
      both : (m.file_open && not write_ok) ≡ true → (m.file_open ≡ true) × (write_ok ≡ false)
      both e = (ground (arith, e), ground (arith, e))

      in_map :
          (k : ℕ) (b : Bitmap)
          → FirstFit m.map 0 cnt false k
          → Filled m.map k cnt true b
          → k + cnt ≤ b.bit_cnt
      in_map k b f r = omega (arith, f.fits, r.same_cnt)

  -- Releasing what free_map_allocate returned does not panic, and gives back the map of before the
  -- call.
  pub release-allocate :
      (write_ok : Bool) (k : ℕ) (m' : FreeMap)
      → allocate write_ok m cnt ≡ some (m', some k)
      → (m'' : FreeMap) × (release m' k cnt ≡ some m'') × IsValid m''.map × Same m m''
  unfolding release
  release-allocate write_ok k m' run = elim (allocate-Allocated write_ok) [
    | inr (_, n, e, _, _) ↦ absurd (cc (sym run ∙ e))
    | inl (_, (k', n, e, a)) ↦
        let same : ◌≡◌ {A = Option (FreeMap × Option ℕ)} (some (m', some k)) (some (n, some k')) =
          sym run ∙ e in
        let at_k : k' ≡ k = cc in
        let at_m : n ≡ m' = cc in
        let a' : Allocated m cnt k m' =
          subst (λ i. Allocated m cnt i m') at_k (subst (λ n. Allocated m cnt k' n) at_m a) in
        let fits : k + cnt ≤ m'.map.bit_cnt = omega (arith, a'.was_free.fits, a'.filled.same_cnt) in
        let used : Uniform m'.map k cnt true = λ j lo hi. ground (arith, a'.filled.now j) in
        let (b, e', g) = set_multiple-Filled a'.filled.valid k cnt fits false in
        (
          record m' { map = b },
          rw (all-true a'.filled.valid k cnt fits used, e') refl,
          g.valid,
          undo m.map m'.map b k cnt a'.was_free.group a'.filled g,
        )
  ]

-- Releasing a range of sectors of which one is free already panics.
pub release-none :
    (m : FreeMap) (k cnt : ℕ)
    → IsValid m.map
    → k + cnt ≤ m.map.bit_cnt
    → Some m.map k cnt false
    → release m k cnt ≡ none
unfolding release
release-none m k cnt v fits (j, lo, hi, clear) = elim (all-Uniform v k cnt fits) [
  | inl (_, u) ↦ absurd (cc (sym (u j lo hi) ∙ clear))
  | inr (e, _) ↦ rw e
]
