-- ===== src/Capability/MaterializerTests.antt =====
-- Resolutions that are written.
use Prim.Native.Char.{Char}
use keyhole_sdk.Base.{◌≡◌, refl, String, Bool, true, false, some, []}
use keyhole_sdk.Base.Json.{end}
use keyhole_sdk.Base.Text.{strip, strip_left, strip_right, is_space, is_within}
use keyhole_sdk.Capability.Outcomes.{ResolvedDependency, ResolutionOutcome}
use keyhole_sdk.Capability.Materializer.{
  write, native, RepoFiles, materialize_resolution, write_native_dependency, new_content,
  without_newlines,
}
use keyhole_sdk.Capability.Materializer.Lawful.{
  IsLawful, IsQuiet, materialize_resolution-IsLawful, materialize_resolution-IsQuiet,
}

abbrev all_safe : Char → Bool
all_safe c = true

abbrev dependency : ResolvedDependency
dependency = record {
  capability = "a.b.c.v1";
  provider = "p";
  version = "1";
  digest = "";
  reason = "";
}

abbrev outcome : ResolutionOutcome
outcome = record {
  status = "resolved";
  resolved = some dependency;
  candidates = [];
  mode = "write";
  correlation_id = "c1";
  http_status = 200;
  is_replay = false;
  error_class = "";
  reason = "";
  repair_guidance = [];
  warnings = [];
  is_local_failure = false;
  response_data = end;
}

abbrev files_with : String → RepoFiles
files_with s = record { dependencies = some s; artifacts = [] }

appended :
    ((materialize_resolution all_safe "repo" "state" outcome write native (files_with "- x\n\n")).0
    ).dependencies
    ≡ some "- x\n- capability: a.b.c.v1\n  provider: p\n  version: 1\n"
unfolding materialize_resolution write_native_dependency new_content without_newlines is_within
    strip strip_left strip_right is_space
appended = refl

-- A longer name and any "p" in the file count as the entry.
not_appended :
    ((materialize_resolution all_safe "repo" "state" outcome write native
      (files_with "- capability: a.b.c.v10")).1
    ).is_write
    ≡ false
unfolding materialize_resolution write_native_dependency new_content without_newlines is_within
    strip strip_left strip_right is_space
not_appended = refl

materialize_resolution-IsLawful_example :
    IsLawful outcome write native
      (files_with "- x")
      (materialize_resolution all_safe "repo" "state" outcome write native (files_with "- x"))
materialize_resolution-IsLawful_example =
    materialize_resolution-IsLawful all_safe "repo" "state" outcome write native (files_with "- x")

materialize_resolution-IsQuiet_example :
    let run = materialize_resolution all_safe "repo" "state" outcome write native in
    IsQuiet all_safe "repo" "state" outcome
      (run (files_with "- x"))
      (run ((run (files_with "- x")).0))
materialize_resolution-IsQuiet_example =
    materialize_resolution-IsQuiet all_safe "repo" "state" outcome write native (files_with "- x")
