-- ===== src/BuildVersion/Examples.antt =====
-- The version of a build that the linker stamped, and of one that it did not.
use public_pkg.Common.{[], ◌≡◌, ◌≢◌, refl, ◌⊎◌, some, none}
use public_pkg.Text.{Bytes, codes}
use public_pkg.Text.Decimal.{parse_uint}
use public_pkg.Text.Split.{split}
use public_pkg.Version.Parse.{
  version_match, skip_spaces, dotted, has_line_feed, extra_match, marked, read_components,
  check_pre_release, parse, read_extra,
}
use public_pkg.Version.Access.{major, minor, patch}
use public_pkg.BuildVersion.{
  DynamicError, unset_build, parsed_default, set_dynamic_version, validate_dynamic_version,
}
use public_pkg.BuildVersion.Dynamic.{
  SameRelease, set_dynamic_version-SameRelease, unstamped_refused,
}

abbrev stamped : Bytes
stamped = codes "v1.2.3"

abbrev running : Bytes
running = codes "v1.2.3-beta.1+k8s"

running_stored : set_dynamic_version stamped running stamped ≡ (none, running)
unfolding set_dynamic_version validate_dynamic_version parse version_match skip_spaces dotted
    has_line_feed extra_match marked read_components check_pre_release split parse_uint read_extra
    major minor patch
running_stored = refl

set_dynamic_version-SameRelease_example :
    (running ≡ running)
    × (running ≢ [])
    × ((running ≡ stamped) ⊎ SameRelease running (parsed_default stamped))
set_dynamic_version-SameRelease_example =
    set_dynamic_version-SameRelease stamped running stamped running running_stored

unstamped_refused_example :
    (e : DynamicError) × (set_dynamic_version unset_build.git_version running
        unset_build.git_version
      ≡ (some e, unset_build.git_version))
unstamped_refused_example = unstamped_refused running unset_build.git_version (λ h. cc)
