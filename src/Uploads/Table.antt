-- ===== src/Uploads/Table.antt =====
-- frontend/src/components/uploads/uploads-table.tsx: the pages of the table, its rows with their controls,
-- and its handlers. Layout, icons and classes are left out.
mod Pages
pub mod Paging
pub mod Controls
pub use Pages.*
unfoldable pub use Pages.{
  total_pages, current_page, paginated_videos, previous_page, next_page, previous_clicked,
  next_clicked,
}
use Prim.Native.String.{◌++◌ as append}
use rendition.Common.{
  ℕ, String, Bool, true, false, ◌||◌, Option, none, some, List, [], ◌∷◌, ◌++◌, map, length, ◌==◌,
  nat_eq, if◌then◌else◌,
}
use rendition.Common.Text.{show}
use rendition.Uploads.{UploadedVideo}
use rendition.Uploads.StatusCell.{Cell, status_cell}
use rendition.Uploads.Multipart.{present}
use rendition.Uploads.Dashboard.{Toast, failure, success, info}

-- What a click does: a callback of the table, the browser goes to a place, a toast, or the clipboard is
-- written, with the toasts for either end.
pub data Effect : Type 0 where
  on_cancel_upload : String → Effect
  on_retry_upload : String → Effect
  navigate : String → Effect
  shows : Toast → Effect
  write_text : String → Toast → Toast → Effect

-- A control of a row: its label, the dialog that asks first if there is one, and its effect.
pub record Dialog : Type 0 where
  pub title : String
  pub description : String
  pub dismiss : String
  pub confirm : String

pub record Control : Type 0 where
  pub label : String
  pub dialog : Option Dialog
  pub effect : Effect

abbrev cancel_dialog : Dialog
cancel_dialog = record {
  title = "Cancel this upload?";
  description = "The multipart upload will be aborted and removed from the table.";
  dismiss = "Keep uploading";
  confirm = "Cancel upload";
}

abbrev toast_of : UploadedVideo → (String → Toast)
toast_of video title = record { kind = info; title = title; description = some video.title }

unfoldable pub retry_control : UploadedVideo → List Control
retry_control video =
    if video.can_retry
    then record { label = "Retry upload"; dialog = none; effect = on_retry_upload video.id } ∷ []
    else []

unfoldable pub cancel_control : UploadedVideo → List Control
cancel_control video =
    if video.can_cancel
    then record {
      label = "Cancel upload";
      dialog = some cancel_dialog;
      effect = on_cancel_upload video.id;
    }
      ∷ []
    else []

unfoldable pub open_effect : UploadedVideo → Effect
open_effect video = elim (present video.video_id) [
  | none ↦
      shows
        (record { kind = info; title = "Video link unavailable"; description = some video.title })
  | some id ↦ navigate (append "/videos/" id)
]

unfoldable pub copy_effect : UploadedVideo → Effect
copy_effect video = elim (present video.video_id) [
  | none ↦
      shows
        (record { kind = info; title = "Video link unavailable"; description = some video.title })
  | some id ↦
      write_text (append "/videos/" id)
        (record { kind = success; title = "Link copied"; description = some video.title })
        (record { kind = failure; title = "Unable to copy link"; description = some video.title })
]

unfoldable pub menu : UploadedVideo → List Control
menu video =
    record { label = "Open"; dialog = none; effect = open_effect video }
    ∷ record { label = "Copy link"; dialog = none; effect = copy_effect video }
    ∷ record {
      label = "Delete";
      dialog = none;
      effect = shows (record {
        kind = failure;
        title = "Delete is not wired yet";
        description = some video.title;
      });
    }
    ∷ []

-- The last column: the buttons of an upload, or the menu of a video.
unfoldable pub row_controls : UploadedVideo → List Control
row_controls video =
    if video.can_cancel || video.can_retry
    then retry_control video ++ cancel_control video
    else menu video

pub record Row : Type 0 where
  pub key : String
  pub title : String
  pub uploaded_at : String
  pub status : Cell
  pub size : String
  pub controls : List Control

unfoldable pub table_row : UploadedVideo → Row
table_row video = record {
  key = video.id;
  title = video.title;
  uploaded_at = video.uploaded_at;
  status = status_cell video;
  size = video.size;
  controls = row_controls video;
}

-- Four grey rows while the list loads.
pub data Rows : Type 0 where
  skeletons : ℕ → Rows
  rows : List Row → Rows

pub record View : Type 0 where
  pub count : String
  pub body : Rows
  pub position : String
  pub previous_disabled : Bool
  pub next_disabled : Bool

unfoldable pub uploads_table : List UploadedVideo → Bool → ℕ → View
uploads_table videos is_loading page =
    let total = total_pages (length videos) in
    let current = current_page page (length videos) in
    record {
      count = append (show (length videos)) " uploads";
      body =
          if is_loading then skeletons 4 else rows (map table_row (paginated_videos page videos));
      position = append "Page " (append (show current) (append " of " (show total)));
      previous_disabled = current == 1;
      next_disabled = current == total;
    }
