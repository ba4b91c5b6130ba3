-- ===== src/Tests/FreeLists.antt =====
-- The free-list theorems at concrete lists.
use opperating_system_practi.Base.{◌≡◌, refl, ◌∷◌, [], some, none, arith}
use opperating_system_practi.FreeList.{
  FreeList, region, allocate, release, remove_range, total_free,
}
use opperating_system_practi.FreeList.Blocks.{is_free}
use opperating_system_practi.FreeList.Allocate.{Takes, allocate-Takes, allocate-none, IsFreeRun}
use opperating_system_practi.FreeList.Release.{Gives, release-Gives}
use opperating_system_practi.FreeList.Remove.{Loses, remove_range-Loses}
use opperating_system_practi.Blocks.{fs_alloc, fs_free}
use opperating_system_practi.Blocks.Roundtrip.{fs_free-fs_alloc}
use opperating_system_practi.Boot.{fs_init, init_free_list}
use opperating_system_practi.Tests.Users.{fresh}
use opperating_system_practi.FreeList.Count.{total_free-allocate}

-- blocks 29 to 30 and 40 to 49
abbrev two_regions : FreeList
two_regions = region 29 30 ∷ region 40 49 ∷ []

allocate_first_fit : allocate 3 two_regions ≡ some (40, region 29 30 ∷ region 43 49 ∷ [])
unfolding allocate
allocate_first_fit = refl

release_merges : release 31 9 two_regions ≡ region 29 49 ∷ []
unfolding release
release_merges = refl

remove_splits : remove_range 42 2 two_regions ≡ region 29 30 ∷ region 40 41 ∷ region 44 49 ∷ []
unfolding remove_range
remove_splits = refl

allocate-Takes_example : Takes 29 3 two_regions 40 (region 29 30 ∷ region 43 49 ∷ [])
allocate-Takes_example =
    allocate-Takes 29 3 two_regions 40 (region 29 30 ∷ region 43 49 ∷ []) (omega arith)
      (omega arith) allocate_first_fit

allocate_eleven : allocate 11 two_regions ≡ none
unfolding allocate
allocate_eleven = refl

allocate-none_example : ¬ IsFreeRun two_regions 40 11
allocate-none_example =
    allocate-none 29 11 two_regions 40 (omega arith) (omega arith) allocate_eleven

release-Gives_example : Gives 29 31 33 two_regions (release 31 3 two_regions)
release-Gives_example =
    release-Gives 29 31 3 two_regions (omega arith) (omega arith) (omega arith)
      (λ b p q. unfold is_free in ground arith)

remove_range-Loses_example : Loses 29 42 43 two_regions (remove_range 42 2 two_regions)
remove_range-Loses_example =
    remove_range-Loses 29 42 2 two_regions (omega arith) (omega arith) (omega arith)

fs_free-fs_alloc_example : fs_free 29 1000 (fs_alloc 1000 fresh).0 ≡ fresh
unfolding fs_alloc allocate fs_init init_free_list
fs_free-fs_alloc_example = fs_free-fs_alloc 1000 29 fresh 29 (omega arith) refl

total_free-allocate_example : total_free two_regions ≡ 12
unfolding total_free
total_free-allocate_example =
    total_free-allocate 3 two_regions 40 (region 29 30 ∷ region 43 49 ∷ []) allocate_first_fit
