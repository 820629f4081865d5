-- ===== src/ExclusionPolicy/Tests.antt =====
-- Runs of src/core/exclusion-policy.ts.
use opsblobs_obsidian.Base.{◌≡◌, ◌↔◌, codes, true, false, [], ◌∷◌}
use opsblobs_obsidian.ExclusionPolicy.{glob_matches, SyncSettings}
use opsblobs_obsidian.ExclusionPolicy.Globs.{Fits, glob_matches_iff}

glob_matches_iff_example :
    (glob_matches (codes "**/draft-?.md") (codes "notes/old/draft-1.md") ≡ true)
    ↔ Fits (codes "**/draft-?.md") (codes "notes/old/draft-1.md")
glob_matches_iff_example = glob_matches_iff (codes "**/draft-?.md") (codes "notes/old/draft-1.md")

abbrev strict : SyncSettings
strict = record {
  excluded_patterns = codes "*.tmp" ∷ [];
  sync_obsidian_config = false;
  max_file_size_mb = 100;
}
