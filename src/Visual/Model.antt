-- ===== src/Visual/Model.antt =====
-- internal/visual/citation_builder.go: citations, their configuration, and the calls of storage, of the
-- drawing and of JSON.
use syara_ai.Base.{ℕ, Bool, true, Option, List, Text, text_equality, Dict}
use syara_ai.Base.{ℤ}
use syara_ai.Rag.Chunk.{RetrievedChunk}

pub record SourceInfo : Type 0 where
  pub source_type : Text
  pub document : Text
  pub section : Text
  pub page : ℕ
  pub standard_number : Text
  pub category : Text
  pub effective_date : Option ℕ

pub record BoundingBox (F : Type 0) : Type 0 where
  pub x : F
  pub y : F
  pub width : F
  pub height : F
  pub page_width : F
  pub page_height : F

pub record VisualCitation (F : Type 0) : Type 0 where
  pub thumbnail_url : Text
  pub full_image_url : Text
  pub highlighted_url : Text
  pub cropped_url : Text
  pub highlight_region : Option (BoundingBox F)

pub record DownloadLinks : Type 0 where
  pub original_pdf : Text
  pub page_pdf : Text
  pub direct_link : Text
  pub source_url : Text

pub record Citation (F : Type 0) : Type 0 where
  pub id : Text
  pub chunk_id : Text
  pub content_snippet : Text
  pub source : SourceInfo
  pub visual : VisualCitation F
  pub download : DownloadLinks
  pub relevance : F
  pub citation_number : ℕ
  pub created_at : ℕ

pub record CitationBuilderConfig : Type 0 where
  pub snippet_max_length : ℤ
  pub generate_highlights : Bool
  pub generate_crops : Bool
  pub generate_page_pdfs : Bool
  pub crop_padding : ℕ

abbrev pub default_citation_builder_config : CitationBuilderConfig
default_citation_builder_config = record {
  snippet_max_length = ℤ.pos 300;
  generate_highlights = true;
  generate_crops = true;
  generate_page_pdfs = true;
  crop_padding = 20;
}

-- A retrieved chunk with the fields that only its citation reads; JSON is its text.
pub record CitedChunk (F : Type 0) : Type 0 where
  pub chunk : RetrievedChunk F
  pub effective_date : Option ℕ
  pub page_image_path : Text
  pub thumbnail_path : Text
  pub bounding_box : Option Text
  pub metadata : Option Text

pub record RegionWithLabel (F : Type 0) : Type 0 where
  pub bounding_box : BoundingBox F
  pub label : Text

-- What lies outside: `decode_metadata` gives the members that are strings.
pub record Media (F W : Type 0) : Type 0 where
  pub new_id : W → Text × W
  pub now : W → ℕ × W
  pub get_url : Text → W → Option Text × W
  pub exists : Text → W → Bool × W
  pub highlight_region : Text → BoundingBox F → Text → Text → Text → W → Option Text × W
  pub highlight_multiple_regions : Text → List (RegionWithLabel F) → Text → W → Option Text × W
  pub crop_region : Text → BoundingBox F → ℕ → Text → Text → W → Option Text × W
  pub decode_box : Text → Option (BoundingBox F)
  pub decode_metadata : Text → Option (Dict Text Text)
