-- ===== src/Filesys/FileHeader/Consecutive.antt =====
-- `Allocate` on a run of consecutive sectors: what its loops write into the header and the index.
use op_prac.Base.{
  ℕ, zero, suc, ◌+◌, ◌-◌, ◌*◌, ◌/◌, ◌≤◌, ◌<◌, ◌≡◌, refl, ap, subst, ◌∙◌, true, some, List, [], ◌∷◌,
  ◌++◌, arith, ℕ_discrete, ok, if◌then◌else◌, lt→ltb, length, get_elem?, set, drop, length-set,
  get_elem?-set_self, get_elem?-set_ne, get_elem?-append,
}
use op_prac.Base.Int.{ℤ, pos}
use op_prac.Userprog.Bitmap.{BitMap, div_round_up}
use op_prac.Userprog.Bitmap.Loops.{in_run}
use op_prac.Filesys.SynchDisk.{num_sectors}
use op_prac.Filesys.SectorStore.{SectorStore}
use op_prac.Filesys.FileHeader.{
  put, take_sector, alloc_direct, fill_index, alloc_indexed, share, num_direct, num_second_index,
  second_direct,
}

-- The addresses from `b` on.
pub count_up : ℕ → ℕ → List ℤ
count_up b zero = []
count_up b (suc n) = pos b ∷ count_up (b + 1) n

length-count_up : (n b : ℕ) → length (count_up b n) ≡ n
unfolding count_up
length-count_up zero b = refl
length-count_up (suc n) b = ap suc (length-count_up n (b + 1))

get_elem?-count_up : (n b j : ℕ) → j < n → get_elem? (count_up b n) j ≡ some (pos (b + j))
unfolding count_up
get_elem?-count_up zero b j h = absurd (omega arith)
get_elem?-count_up (suc n) b zero h = ap (λ k. some (pos k)) (omega arith)
get_elem?-count_up (suc n) b (suc j) h =
    get_elem?-count_up n (b + 1) j (omega arith) ∙ ap (λ k. some (pos k)) (omega arith)

put_lem : (xs : List ℤ) (i : ℕ) (v : ℤ) → i < length xs → put xs i v ≡ ok (set xs i v)
put_lem xs i v h = rw (lt→ltb i (length xs) h) refl

sub_self : (b i : ℕ) → some (pos (b + (i - i))) ≡ some (pos b)
sub_self b i = ap (λ k. some (pos k)) (omega arith)

sub_suc : (b k i : ℕ) → i < k → some (pos (b + 1 + (k - (i + 1)))) ≡ some (pos (b + (k - i)))
sub_suc b k i h = ap (λ k. some (pos k)) (omega arith)

-- Rounding up to whole index sectors, without the test.
pub round_up_lem : (n : ℕ) → div_round_up n 32 ≡ (n + 31) / 32
round_up_lem n = ground arith

pub alloc_direct_lem :
    (n i b : ℕ) (xs : List ℤ) (free_map : BitMap)
    → i + n ≤ length xs
    → (xs' : List ℤ) × (alloc_direct n i true b xs free_map ≡ ok (b + n, xs', free_map))
      × (length xs' ≡ length xs)
      × ((k : ℕ)
          → get_elem? xs' k ≡ (if in_run i n k then some (pos (b + (k - i))) else get_elem? xs k))
unfolding alloc_direct take_sector
alloc_direct_lem zero i b xs free_map h =
    (xs, ap (λ c. ok (c, xs, free_map)) (omega arith), refl, (λ k. ground arith))
alloc_direct_lem (suc n) i b xs free_map h =
    let (xs', e, size, at) =
      alloc_direct_lem n (i + 1) (b + 1) (set xs i (pos b)) free_map
        (omega (arith, length-set xs i (pos b))) in
    (
      xs',
      rw (lt→ltb i (length xs) (omega arith)) (e ∙ ap (λ c. ok (c, xs', free_map)) (omega arith)),
      size ∙ length-set xs i (pos b),
      (λ k. elim (ℕ_discrete i k) [
        | yes same ↦
            let set_here = get_elem?-set_self xs i (pos b) (omega arith) in
            subst
              (λ c.
                get_elem? xs' c
                ≡ (if in_run i (suc n) c then some (pos (b + (c - i))) else get_elem? xs c))
              same (at i ∙ ground (arith, set_here, sub_self b i))
        | no other ↦
            let unset = get_elem?-set_ne xs i k (pos b) other in
            at k ∙ ground (arith, unset, sub_suc b k i)
      ]),
    )

pub fill_index_lem :
    (n b : ℕ) (free_map : BitMap)
    → fill_index n true b free_map ≡ ok (count_up b n, b + n, free_map)
unfolding fill_index take_sector count_up
fill_index_lem zero b free_map = ap (λ c. ok ([], c, free_map)) (omega arith)
fill_index_lem (suc n) b free_map =
    rw (fill_index_lem n (b + 1) free_map)
      (ap (λ c. ok (pos b ∷ count_up (b + 1) n, c, free_map)) (omega arith))

module _ {S : Type 0} (store : SectorStore S) where
  open store use {IsGood, contents, write_lem}

  -- From index sector `i` on, the addresses of `left` sectors are laid out from `b` on: each index
  -- sector is followed by the 32 sectors that it is for.
  pub record Indexed (xs : List ℤ) (st : S) (i b left : ℕ) : Type 0 where
    pub index_at :
        (d : ℕ) → 32 * d < left → get_elem? xs (num_direct + i + d) ≡ some (pos (b + 33 * d))
    pub address_at :
        (d j : ℕ)
        → j < 32
        → 32 * d + j < left
        → get_elem? (contents st (b + 33 * d)) j ≡ some (pos (b + 33 * d + 1 + j))

  pub alloc_indexed_lem :
      (memory : List ℤ) (now fuel i left b : ℕ) (xs : List ℤ) (free_map : BitMap) (st : S)
      → left ≤ fuel
      → left + 32 * i ≤ num_second_index * second_direct
      → length xs ≡ num_direct + num_second_index
      → b + left + div_round_up left second_direct ≤ num_sectors
      → IsGood st
      → (xs' : List ℤ) × (st' : S) × (alloc_indexed store memory now fuel i left true b xs free_map
            st
          ≡ ok (xs', free_map, st'))
        × (length xs' ≡ num_direct + num_second_index)
        × IsGood st'
        × ((k : ℕ) → k < num_direct + i → get_elem? xs' k ≡ get_elem? xs k)
        × ((s : ℕ) → s < b → contents st' s ≡ contents st s)
        × Indexed xs' st' i b left
  unfolding alloc_indexed take_sector
  alloc_indexed_lem memory now fuel i zero b xs free_map st f fits size room good = (
    xs,
    st,
    refl,
    size,
    good,
    (λ k h. refl),
    (λ s h. refl),
    record {
      index_at = λ d h. absurd (omega arith);
      address_at = λ d j lt h. absurd (omega arith);
    },
  )
  alloc_indexed_lem memory now zero i (suc left) b xs free_map st f fits size room good =
      absurd (omega arith)
  alloc_indexed_lem memory now (suc fuel) i (suc left) b xs free_map st f fits size room good =
      let n = share (suc left) in
      let addresses = count_up (b + 1) n ++ drop n memory in
      let (st₁, wrote, good₁, reads) = write_lem st b addresses now good (omega arith) in
      let xs₁ = set xs (num_direct + i) (pos b) in
      let (xs', st', e, size', good', before, below, laid) =
        alloc_indexed_lem memory now fuel (i + 1) (suc left - n) (b + 1 + n) xs₁ free_map st₁
          (ground arith) (ground arith) (length-set xs (num_direct + i) (pos b) ∙ size)
          (ground (arith, round_up_lem (suc left), round_up_lem (suc left - n))) good₁ in
      (
        xs',
        st',
        rw
            (
              put_lem xs (num_direct + i) (pos b) (omega (arith, size)),
              fill_index_lem n (b + 1) free_map,
              wrote,
            )
            e,
        size',
        good',
        (λ k h.
            before k (omega arith)
            ∙ get_elem?-set_ne xs (num_direct + i) k (pos b) (λ p. absurd (omega arith))),
        (λ s h. below s (omega arith) ∙ (reads s ∙ ground arith)),
        record {
          index_at = λ d h. elim (ℕ_discrete d 0) [
            | yes first ↦
                ap (get_elem? xs') (let p : num_direct + i + d ≡ num_direct + i = omega arith in p)
                ∙ before (num_direct + i) (omega arith)
                ∙ get_elem?-set_self xs (num_direct + i) (pos b) (omega (arith, size))
                ∙ ap (λ c. some (pos c)) (omega arith)
            | no later ↦
                let full : n ≡ 32 = ground arith in
                ap (get_elem? xs')
                  (let p : num_direct + i + d ≡ num_direct + (i + 1) + (d - 1) = omega arith in p)
                ∙ laid.index_at (d - 1) (omega (arith, full))
                ∙ ap (λ c. some (pos c)) (omega (arith, full))
          ];
          address_at = λ d j lt h. elim (ℕ_discrete d 0) [
            | yes first ↦
                let within : j < n = ground arith in
                ap (λ c. get_elem? (contents st' c) j) (let p : b + 33 * d ≡ b = omega arith in p)
                ∙ ap (λ c. get_elem? c j) (below b (omega arith) ∙ (reads b ∙ ground arith))
                ∙ get_elem?-append (count_up (b + 1) n) (drop n memory) j
                    (omega (arith, length-count_up n (b + 1)))
                ∙ get_elem?-count_up n (b + 1) j within
                ∙ ap (λ c. some (pos c)) (omega arith)
            | no later ↦
                let full : n ≡ 32 = ground arith in
                ap (λ c. get_elem? (contents st' c) j)
                  (let p : b + 33 * d ≡ b + 1 + n + 33 * (d - 1) = omega (arith, full) in p)
                ∙ laid.address_at (d - 1) j lt (omega (arith, full))
                ∙ ap (λ c. some (pos c)) (omega (arith, full))
          ];
        },
      )
