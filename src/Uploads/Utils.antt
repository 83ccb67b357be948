-- ===== src/Uploads/Utils.antt =====
-- frontend/src/components/uploads/utils.ts.
pub mod Counts
use Prim.Native.String.{◌++◌ as append}
use rendition.Common.{
  ℕ, ◌+◌, ◌*◌, ◌/◌, ◌%◌, ◌^◌, String, Bool, true, false, not, List, leb, if◌then◌else◌, filter,
  length,
}
use rendition.Common.Text.{show}
use rendition.Api.{ProcessingStatus, Rendition}
use rendition.Uploads.{RenditionProgress}

-- The number that `(bytes / unit).toFixed(digits)` shows, in units of the last digit. `unit` is a power of
-- two, so the quotient of an exact integer is exact, and `toFixed` takes the nearest, the larger on a tie.
abbrev pub fixed : ℕ → ℕ → ℕ → ℕ
fixed digits unit bytes = (2 * bytes * 10 ^ digits + unit) / (2 * unit)

-- The text of a fixed-point number with one or two digits.
abbrev show_tenths : ℕ → String
show_tenths n = append (show (n / 10)) (append "." (show (n % 10)))

abbrev show_hundredths : ℕ → String
show_hundredths n =
    append (show (n / 100)) (append "." (append (show (n % 100 / 10)) (show (n % 10))))

unfoldable pub format_bytes : ℕ → String
format_bytes bytes =
    if leb (1024 ^ 3) bytes
    then append (show_hundredths (fixed 2 (1024 ^ 3) bytes)) " GB"
    else if leb (1024 ^ 2) bytes
    then append (show_tenths (fixed 1 (1024 ^ 2) bytes)) " MB"
    else append (show_tenths (fixed 1 1024 bytes)) " KB"

abbrev pub is_skipped : Rendition → Bool
is_skipped r = elim r.status [ ProcessingStatus.skipped ↦ true | _ ↦ false ]

abbrev pub is_done : Rendition → Bool
is_done r = elim r.status [ ProcessingStatus.done ↦ true | _ ↦ false ]

unfoldable pub rendition_progress_from_renditions : List Rendition → RenditionProgress
rendition_progress_from_renditions renditions =
    let relevant_renditions = filter (λ r. not (is_skipped r)) renditions in
    record {
      completed = length (filter is_done relevant_renditions);
      total = length relevant_renditions;
    }
