-- ===== src/Uploads/Dropzone.antt =====
-- frontend/src/components/uploads/upload-dropzone.tsx: what the dropzone shows, and what it calls on each
-- event. Layout and classes are left out, but for those that say that a file hovers.
use Prim.Native.String.{◌++◌ as append}
use rendition.Common.{
  ℕ, ◌-◌, String, Bool, true, false, ◌&&◌, Option, none, some, List, [], ◌∷◌, map, leb, ltb, length,
  if◌then◌else◌, ◌≡◌, ◌≢◌, refl, arith,
}
use rendition.Common.Text.{codes, last_segment}

pub record Props : Type 0 where
  pub is_dragging : Bool
  pub allowed_content_types : List String
  pub disabled : Bool

-- `F` is the type of files.
pub data Event {ℓ} (F : Type ℓ) : Type ℓ where
  drag_over drag_leave click : Event F
  drop : List F → Event F
  input_change : Option (List F) → Event F

pub data Effect {ℓ} (F : Type ℓ) : Type ℓ where
  on_dragging_change : Bool → Effect F
  on_file_selected : Option F → Effect F
  clears_input opens_picker : Effect F

abbrev first {ℓ} : {F : Type ℓ} → List F → Option F
first [] = none
first (f ∷ fs) = some f

-- event.target.files?.[0]
abbrev first_chosen {ℓ} : {F : Type ℓ} → Option (List F) → Option F
first_chosen none = none
first_chosen (some files) = first files

-- A disabled button and a disabled input send no events of their own.
unfoldable pub on_event {ℓ} : {F : Type ℓ} → Props → Event F → List (Effect F)
on_event p drag_over = if p.disabled then [] else on_dragging_change true ∷ []
on_event p drag_leave = on_dragging_change false ∷ []
on_event p (drop files) =
    if p.disabled then [] else on_dragging_change false ∷ on_file_selected (first files) ∷ []
on_event p (input_change files) =
    if p.disabled then [] else on_file_selected (first_chosen files) ∷ clears_input ∷ []
on_event p click = if p.disabled then [] else opens_picker ∷ []

-- list.join(separator)
unfoldable pub join_texts : String → List String → String
join_texts separator [] = ""
join_texts separator (t ∷ []) = t
join_texts separator (t ∷ u ∷ ts) = append t (append separator (join_texts separator (u ∷ ts)))

-- `type.split("/").at(-1)?.toUpperCase()` as code points; content types are ASCII.
unfoldable pub type_label : String → List ℕ
type_label type =
    map (λ c. if leb b'a' c && leb c b'z' then c - 32 else c)
      (last_segment b'/' (codes type) (codes type))

-- The labels joined by ", ", or the notice that limits are loading.
unfoldable pub join_labels : List (List ℕ) → List ℕ
join_labels [] = []
join_labels (l ∷ []) = l
join_labels (l ∷ m ∷ ls) = mathlib.Core.List.◌++◌ l (b',' ∷ b' ' ∷ join_labels (m ∷ ls))

pub record View : Type 0 where
  pub accept : String
  pub input_disabled : Bool
  pub highlighted : Bool
  pub limits : List ℕ

unfoldable pub upload_dropzone : Props → View
upload_dropzone p = record {
  accept = join_texts "," p.allowed_content_types;
  input_disabled = p.disabled;
  highlighted = p.is_dragging;
  limits =
      if ltb 0 (length p.allowed_content_types)
      then join_labels (map type_label p.allowed_content_types)
      else codes "Loading upload limits";
}

abbrev pub selects {ℓ} : {F : Type ℓ} → List (Effect F) → List (Option F)
selects [] = []
selects (on_file_selected f ∷ es) = f ∷ selects es
selects (on_dragging_change b ∷ es) = selects es
selects (clears_input ∷ es) = selects es
selects (opens_picker ∷ es) = selects es

disabled_quiet {ℓ} :
    {F : Type ℓ} (p : Props) (ev : Event F)
    → p.disabled ≡ true
    → (selects (on_event p ev) ≡ []) × (on_event p ev ≢ on_dragging_change true ∷ [])
unfolding on_event
disabled_quiet p drag_over d = (ground arith, ground arith)
disabled_quiet p drag_leave d = (refl, ground arith)
disabled_quiet p click d = (ground arith, ground arith)
disabled_quiet p (drop files) d = (ground arith, ground arith)
disabled_quiet p (input_change files) d = (ground arith, ground arith)

-- While it is disabled the dropzone selects no file on any event and never starts to be highlighted;
-- while it is enabled a drop selects its first file and ends the highlight, and a choice selects its first
-- file.
pub on_event_disabled {ℓ} :
    {F : Type ℓ} (p : Props)
    → (p.disabled ≡ true
        → (ev : Event F)
        → (selects (on_event p ev) ≡ []) × (on_event p ev ≢ on_dragging_change true ∷ []))
      × (p.disabled ≡ false
          → (f : F) (fs : List F)
          → (on_event p (drop (f ∷ fs)) ≡ on_dragging_change false ∷ on_file_selected (some f) ∷ [])
            × (selects (on_event p (input_change (some (f ∷ fs)))) ≡ some f ∷ []))
unfolding on_event
on_event_disabled p = (λ d ev. disabled_quiet p ev d, λ e f fs. (ground arith, ground arith))
