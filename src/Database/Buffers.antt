-- ===== src/Database/Buffers.antt =====
-- The buffer rows after an INSERT or an UPDATE.
use mycelium_consciousness.Prelude.{
  ℕ, Bool, true, false, List, [], ◌∷◌, ◌++◌, map, none, some, ◌≡◌, ◌≢◌, refl, arith, ◌==◌, any,
  find, update,
}
use mycelium_consciousness.Effects.{ok}
use mycelium_consciousness.Services.{Bytes}
use mycelium_consciousness.Models.{MemoryBuffer}
use mycelium_consciousness.Database.{Db, get_buffer, insert_buffer, update_buffer, intact}

module _ {ℓ} {A : Type ℓ} (p : A → Bool) where
  find-append :
      (xs : List A) (x : A) → find p xs ≡ none → p x ≡ true → find p (xs ++ x ∷ []) ≡ some x
  find-append [] x h e = ground arith
  find-append (y ∷ xs) x h e = ground (arith, find-append xs x)

  find-append_ne : (xs : List A) (x : A) → p x ≡ false → find p (xs ++ x ∷ []) ≡ find p xs
  find-append_ne [] x e = ground arith
  find-append_ne (y ∷ xs) x e = ground (arith, find-append_ne xs x)

abbrev row_of : ℕ → MemoryBuffer → Bool
row_of c b = b.clone_id == c

pub get_buffer-insert :
    (b : MemoryBuffer) (db : Db) {db' : Db}
    → insert_buffer b db ≡ ok db'
    → get_buffer b.clone_id db ≡ none
    → get_buffer b.clone_id db' ≡ some b
unfolding insert_buffer
get_buffer-insert b db h k = ground (arith, find-append (row_of b.clone_id) db.buffers b)

pub get_buffer-insert_ne :
    (b : MemoryBuffer) (j : ℕ) (db : Db) {db' : Db}
    → insert_buffer b db ≡ ok db'
    → j ≢ b.clone_id
    → get_buffer j db' ≡ get_buffer j db
unfolding insert_buffer
get_buffer-insert_ne b j db h ne = ground (arith, find-append_ne (row_of j) db.buffers b)

module _ (c : ℕ) (blob : Bytes) (n : ℕ) where
  abbrev written : MemoryBuffer → MemoryBuffer
  written b = record b { payload_blob = blob; entry_count = n }

  find-update :
      (bs : List MemoryBuffer) (b : MemoryBuffer)
      → find (row_of c) bs ≡ some b
      → find (row_of c) (update (row_of c) written bs) ≡ some (written b)
  find-update [] b h = cc
  find-update (x ∷ bs) b h = ground (arith, find-update bs b)

  find-update_ne :
      (j : ℕ) (bs : List MemoryBuffer)
      → j ≢ c
      → find (row_of j) (update (row_of c) written bs) ≡ find (row_of j) bs
  find-update_ne j [] ne = refl
  find-update_ne j (x ∷ bs) ne = ground (arith, find-update_ne j bs ne)

  clone_ids-update :
      (bs : List MemoryBuffer)
      → map (λ b. b.clone_id) (update (row_of c) written bs) ≡ map (λ b. b.clone_id) bs
  clone_ids-update [] = refl
  clone_ids-update (x ∷ bs) = ground (arith, clone_ids-update bs)

  any-of-find :
      (bs : List MemoryBuffer) (b : MemoryBuffer)
      → find (row_of c) bs ≡ some b
      → any (row_of c) bs ≡ true
  any-of-find [] b h = cc
  any-of-find (x ∷ bs) b h = ground (arith, any-of-find bs b)

  pub get_buffer-update :
      (db : Db) (b : MemoryBuffer) {db' : Db}
      → update_buffer c blob n db ≡ ok db'
      → get_buffer c db ≡ some b
      → get_buffer c db' ≡ some (record b { payload_blob = blob; entry_count = n })
  unfolding update_buffer
  get_buffer-update db b h k = ground (arith, find-update db.buffers b)

  pub get_buffer-update_ne :
      (j : ℕ) (db : Db) {db' : Db}
      → update_buffer c blob n db ≡ ok db'
      → j ≢ c
      → get_buffer j db' ≡ get_buffer j db
  unfolding update_buffer
  get_buffer-update_ne j db h ne = ground (arith, find-update_ne j db.buffers ne)

  -- An UPDATE of a row that is there breaks no constraint.
  pub update_buffer-intact :
      (db : Db) (b : MemoryBuffer)
      → get_buffer c db ≡ some b
      → intact db ≡ true
      → (db' : Db) × (update_buffer c blob n db ≡ ok db') × (intact db' ≡ true)
  unfolding update_buffer
  update_buffer-intact db b k i = (
    record db { buffers = update (row_of c) written db.buffers },
    rw (any-of-find db.buffers b k) refl,
    unfold intact in rw (clone_ids-update db.buffers) i,
  )
