-- ===== src/Examples/Texts.antt =====
-- Texts that the pages show and ask for.
use rendition.Common.{some, false, [], ◌∷◌, ◌≡◌, refl}
use rendition.Common.Text.{show, codes, last_segment}
use rendition.Api.{ProcessingStatus, status_text}
use rendition.Api.Requests.{list_videos}
use rendition.Uploads.Utils.{format_bytes}
use rendition.Uploads.Multipart.{normalize_content_type}
use rendition.Uploads.Dropzone.{upload_dropzone, join_labels, type_label, join_texts}

show_2048 : show 2048 ≡ "2048"
unfolding show
show_2048 = refl

feed_page_two :
    (list_videos (
      some
        (record { page = some 2; page_size = some 8; status = some ProcessingStatus.done }))).path
    ≡ "/videos?page=2&page_size=8&status=done"
unfolding list_videos show status_text
feed_page_two = refl

limits_shown :
    (upload_dropzone (record {
      is_dragging = false;
      allowed_content_types = "video/mp4" ∷ "video/quicktime" ∷ [];
      disabled = false;
    })).limits
    ≡ codes "MP4, QUICKTIME"
unfolding upload_dropzone join_labels type_label last_segment join_texts
limits_shown = refl

upper_case_extension :
    normalize_content_type (record { name = "a.b.MKV"; type = ""; content = [] })
    ≡ "video/x-matroska"
unfolding normalize_content_type last_segment
upper_case_extension = refl

megabytes : format_bytes 8388608 ≡ "8.0 MB"
unfolding format_bytes show
megabytes = refl

gigabytes : format_bytes 5368709120 ≡ "5.00 GB"
unfolding format_bytes show
gigabytes = refl
