-- ===== src/Disk.antt =====
-- The metadata region and the data bytes of the disk file: `get_meta_blocks`, `save_metadata`, and
-- what `fseek` with `fread` or `fwrite` does to the file.
pub mod Image
use opperating_system_practi.Base.{
  ℕ, zero, suc, ◌+◌, ◌-◌, ◌*◌, ◌/◌, List, [], ◌∷◌, ◌==◌, if◌then◌else◌, length,
}
use Prim.Native.Nat.{min, max}
use opperating_system_practi.Types.{
  Disk, Metadata, Fs, block_size, max_files, max_users, max_groups,
}

-- `sizeof` of the four structures on x86-64, where `time_t` has eight bytes
abbrev sizeof_super_block : ℕ
sizeof_super_block = 24

abbrev sizeof_file_entry : ℕ
sizeof_file_entry = 80

abbrev sizeof_user : ℕ
sizeof_user = 88

abbrev sizeof_group : ℕ
sizeof_group = 40

abbrev pub meta_bytes : ℕ
meta_bytes =
    sizeof_super_block
    + sizeof_file_entry * max_files
    + sizeof_user * max_users
    + sizeof_group * max_groups

-- `get_meta_blocks`
abbrev pub get_meta_blocks : ℕ
get_meta_blocks = (meta_bytes + block_size - 1) / block_size

abbrev pub metadata : Fs → Metadata
metadata s = record {
  super_block = s.super_block;
  file_table = s.file_table;
  user_table = s.user_table;
  group_table = s.group_table;
}

unfoldable pub save_metadata : Fs → Fs
save_metadata s = record s { disk = record s.disk { saved = metadata s } }

-- `n` bytes from an offset on
unfoldable pub read_bytes : (ℕ → ℕ) → ℕ → ℕ → List ℕ
read_bytes image offset zero = []
read_bytes image offset (suc n) = image offset ∷ read_bytes image (offset + 1) n

-- `fread(buffer, 1, n, disk_file)` behind `fseek` to `offset` stops at the end of the file.
unfoldable pub fread : Disk → ℕ → ℕ → List ℕ
unfolding read_bytes
fread d offset n = read_bytes d.bytes_at offset (min n (d.length - offset))

unfoldable pub write_bytes : (ℕ → ℕ) → ℕ → List ℕ → ℕ → ℕ
write_bytes image offset [] o = image o
write_bytes image offset (b ∷ bs) o = if o == offset then b else write_bytes image (offset + 1) bs o

-- `fwrite(buffer, 1, n, disk_file)` behind `fseek` to `offset`: all bytes are written, and the file
-- grows where they reach beyond its end.
unfoldable pub fwrite : Disk → ℕ → List ℕ → Disk
unfolding write_bytes
fwrite d offset [] = d
fwrite d offset (b ∷ bs) = record d {
  bytes_at = write_bytes d.bytes_at offset (b ∷ bs);
  length = max d.length (offset + length (b ∷ bs));
}
