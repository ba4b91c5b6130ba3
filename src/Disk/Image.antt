-- ===== src/Disk/Image.antt =====
-- Bytes read from the disk file after bytes were written to it.
use opperating_system_practi.Base.{
  ℕ, zero, suc, ◌+◌, ◌-◌, ◌≤◌, ◌<◌, ◌≡◌, refl, ◌∙◌, ap₂, ◌⊎◌, inl, inr, List, [], ◌∷◌, length,
  arith,
}
use Prim.Native.Nat.{min, max}
use opperating_system_practi.Types.{Disk, Metadata}
use opperating_system_practi.Disk.{read_bytes, write_bytes, fread, fwrite}

pub write_bytes_below :
    (image : ℕ → ℕ) (offset : ℕ) (buffer : List ℕ) (o : ℕ)
    → o < offset
    → write_bytes image offset buffer o ≡ image o
unfolding write_bytes
write_bytes_below image offset [] o h = refl
write_bytes_below image offset (b ∷ bs) o h =
    ground (arith, write_bytes_below image (offset + 1) bs o)

pub write_bytes_beyond :
    (image : ℕ → ℕ) (offset : ℕ) (buffer : List ℕ) (o : ℕ)
    → offset + length buffer ≤ o
    → write_bytes image offset buffer o ≡ image o
unfolding write_bytes
write_bytes_beyond image offset [] o h = refl
write_bytes_beyond image offset (b ∷ bs) o h =
    ground (arith, write_bytes_beyond image (offset + 1) bs o)

write_bytes_apart :
    (image : ℕ → ℕ) (offset : ℕ) (buffer : List ℕ) (o : ℕ)
    → (o < offset) ⊎ (offset + length buffer ≤ o)
    → write_bytes image offset buffer o ≡ image o
write_bytes_apart image offset buffer o (inl h) = write_bytes_below image offset buffer o h
write_bytes_apart image offset buffer o (inr h) = write_bytes_beyond image offset buffer o h

-- What is read depends on the bytes of its range only.
pub read_bytes-eq :
    (image image' : ℕ → ℕ) (offset n : ℕ)
    → ((o : ℕ) → offset ≤ o → o < offset + n → image o ≡ image' o)
    → read_bytes image offset n ≡ read_bytes image' offset n
unfolding read_bytes
read_bytes-eq image image' offset zero h = refl
read_bytes-eq image image' offset (suc n) h =
    ap₂ ◌∷◌ (h offset (omega arith) (omega arith))
      (read_bytes-eq image image' (offset + 1) n (λ o p q. h o (omega arith) (omega arith)))

pub read_bytes-write_bytes :
    (image : ℕ → ℕ) (offset : ℕ) (buffer : List ℕ)
    → read_bytes (write_bytes image offset buffer) offset (length buffer) ≡ buffer
unfolding read_bytes
read_bytes-write_bytes image offset [] = refl
read_bytes-write_bytes image offset (b ∷ bs) = ap₂ ◌∷◌ (unfold write_bytes in ground arith) (
    read_bytes-eq (write_bytes image offset (b ∷ bs)) (write_bytes image (offset + 1) bs)
      (offset + 1) (length bs) (λ o p q. unfold write_bytes in ground arith)
    ∙ read_bytes-write_bytes image (offset + 1) bs)

-- `fread` returns what `fwrite` has written at the same place.
pub fread-fwrite :
    (d : Disk) (offset : ℕ) (buffer : List ℕ)
    → fread (fwrite d offset buffer) offset (length buffer) ≡ buffer
unfolding fread fwrite
fread-fwrite d offset [] =
    let e : min 0 (d.length - offset) ≡ 0 = omega arith in rw e (unfold read_bytes in refl)
fread-fwrite d offset (b ∷ bs) =
    let n = length (b ∷ bs) in
    let e : min n (max d.length (offset + n) - offset) ≡ n = omega arith in
    rw e (read_bytes-write_bytes d.bytes_at offset (b ∷ bs))

-- The metadata does not enter what is read behind it.
pub fread-saved :
    (d : Disk) (m : Metadata) (offset n : ℕ)
    → fread (record d { saved = m }) offset n ≡ fread d offset n
unfolding fread
fread-saved d m offset n = refl

-- A write elsewhere does not change what is read within the file's length.
pub fread-fwrite_apart :
    (d : Disk) (offset : ℕ) (buffer : List ℕ) (offset' n : ℕ)
    → offset' + n ≤ d.length
    → ((o : ℕ) → offset' ≤ o → o < offset' + n → (o < offset) ⊎ (offset + length buffer ≤ o))
    → fread (fwrite d offset buffer) offset' n ≡ fread d offset' n
unfolding fread fwrite
fread-fwrite_apart d offset [] offset' n h apart = refl
fread-fwrite_apart d offset (b ∷ bs) offset' n h apart =
    let e : min n (max d.length (offset + length (b ∷ bs)) - offset') ≡ n = omega arith in
    let e' : min n (d.length - offset') ≡ n = omega arith in
    rw (e, e')
      (read_bytes-eq (write_bytes d.bytes_at offset (b ∷ bs)) d.bytes_at offset' n
        (λ o p q. write_bytes_apart d.bytes_at offset (b ∷ bs) o (apart o p q)))
