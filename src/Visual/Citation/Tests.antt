-- ===== src/Visual/Citation/Tests.antt =====
-- Runs of the citation builder at concrete inputs, and its theorems there. Similarities are numbers;
-- the world holds the labels that were drawn.
use syara_ai.Base.{
  ℕ, ◌/◌, ◌≡◌, refl, false, none, some, List, [], ◌∷◌, ◌++◌, map, ltb, leb, Text, codes,
  text_equality, arith,
}
use syara_ai.Base.{ℤ, reverse, decimal, trim_space}
use mathlib.Core.List.{reverse_perm}
use syara_ai.Rag.Chunk.{Float}
use syara_ai.Visual.Snippet.{has_double, halve_doubles, create_snippet}
use syara_ai.Visual.Snippet.Spaces.{single_spaced}
use syara_ai.Visual.Snippet.Cut.{IsSnippet, create_snippet-IsSnippet}
use syara_ai.Visual.Model.{
  BoundingBox, Citation, CitedChunk, Media, default_citation_builder_config,
}
use syara_ai.Visual.Citation.{build_page_pdf_path}
use syara_ai.Visual.Citation.Groups.{build_citations}
use syara_ai.Visual.Citation.Cites.{Cites, build_citations-Cites}

abbrev number : Float ℕ
number = record {
  greater = λ a b. ltb b a;
  at_least = λ a b. leb b a;
  two_places = λ n. [];
  quotient = λ a b. a / b;
}

abbrev box : BoundingBox ℕ
box = record { x = 1; y = 1; width = 5; height = 5; page_width = 100; page_height = 100 }

abbrev media : Media ℕ (List Text)
media = record {
  new_id = λ w. (codes "id", w);
  now = λ w. (7, w);
  get_url = λ path w. (some path, w);
  exists = λ path w. (false, w);
  highlight_region = λ path b label query chunk w. (some (codes "drawn"), w ++ label ∷ []);
  highlight_multiple_regions = λ path regions query w. (none, w);
  crop_region = λ path b padding query chunk w. (none, w);
  decode_box = λ json. some box;
  decode_metadata = λ json. none;
}

abbrev chunk : Text → ℕ → ℕ → CitedChunk ℕ
chunk id page similarity = record {
  chunk = record {
    id = id;
    document_id = codes "d";
    content = codes " Riba  is\nnot allowed. ";
    page_number = page;
    section_title = [];
    similarity = similarity;
    source_type = codes "bnm";
    document_title = codes "Policy";
    category = [];
    standard_num = [];
  };
  effective_date = none;
  page_image_path = decimal page;
  thumbnail_path = [];
  bounding_box = some (codes "{}");
  metadata = none;
}

abbrev two_chunks : List (CitedChunk ℕ)
two_chunks = chunk (codes "a") 1 10 ∷ chunk (codes "b") 2 90 ∷ []

build_citations-Cites_example :
    Cites number 0 media default_citation_builder_config two_chunks
      (build_citations number 0 media default_citation_builder_config reverse two_chunks
        (codes "q")
        []).0
build_citations-Cites_example =
    build_citations-Cites number 0 media default_citation_builder_config reverse two_chunks
      (codes "q") [] (λ groups. reverse_perm groups) (λ a b. ground arith) (λ a b c. ground arith)

-- The labels that are drawn are the numbers before the sorting: the first citation shows a 2.
labels_before_sorting :
    let r =
      build_citations number 0 media default_citation_builder_config
        (λ groups. groups)
        two_chunks
        (codes "q")
        [] in
    (map (λ (c : Citation ℕ). c.chunk_id) r.0 ≡ codes "b" ∷ codes "a" ∷ [])
    × (r.1 ≡ codes "1" ∷ codes "2" ∷ [])
unfolding build_citations
labels_before_sorting = (refl, refl)

create_snippet-IsSnippet_example :
    IsSnippet 10
      (codes "Riba is not allowed.")
      (create_snippet (ℤ.pos 10) (codes " Riba  is\nnot allowed. "))
unfolding trim_space single_spaced
create_snippet-IsSnippet_example =
    create_snippet-IsSnippet (ℤ.pos 10) (codes " Riba  is\nnot allowed. ")

short_snippet : create_snippet (ℤ.pos 10) (codes " Riba  is\nnot allowed. ") ≡ codes "Riba is..."
unfolding create_snippet has_double halve_doubles
short_snippet = refl

page_path : build_page_pdf_path (codes "d") 12 ≡ codes "generated-pdfs/d/page-12.pdf"
unfolding build_page_pdf_path
page_path = refl
