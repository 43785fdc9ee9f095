-- ===== src/Common/Text.antt =====
-- Operations on texts.
use Prim.Native.String.{String}
use mathlib.Core.Bool.{Bool}
use text.Mathlib.Text.{find?}
use oxicast.Common.Tests.{is_some}

-- `str::contains`.
abbrev pub contains : String → String → Bool
contains s t = is_some (find? s t)
