-- ===== src/Tests/ArtifactTests.antt =====
-- src/fabric_shortcut_proxy/runtime/artifact_store.py at concrete inputs.
use fabric_shortcut_proxy.Prelude.{◌≡◌, refl, some, none}
use fabric_shortcut_proxy.Artifacts.Keys.{chars, normalize_key}
use fabric_shortcut_proxy.Artifacts.Keys.Clean.{normalize_key-IsKey}
use fabric_shortcut_proxy.Artifacts.Keys.Segments.{IsKey}

traversal_refused : normalize_key "a/../b" ≡ none
unfolding normalize_key
traversal_refused = refl

cleaned : normalize_key "/a\\.//b/" ≡ some "a/b"
unfolding normalize_key
cleaned = refl

normalize_key-IsKey_example : IsKey (chars "a/b") × (normalize_key "a/b" ≡ some "a/b")
normalize_key-IsKey_example = normalize_key-IsKey "/a\\.//b/" "a/b" cleaned
