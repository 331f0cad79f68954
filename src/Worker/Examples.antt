-- ===== src/Worker/Examples.antt =====
-- The theorems of the workers' parts at concrete names and technologies.
use milton_prism.Prelude.{String, some, [], ◌∷◌, ◌≡◌, refl}
use milton_prism.Worker.Prefixes.{
  Format, Assigned, owner_of, try_from, base_of, pad, allocate, allocate_all, after,
}
use milton_prism.Worker.Prefix.{allocate-IsUnique, allocate-IsStable}
use milton_prism.Worker.Technologies.{Technology, merge_technologies}
use milton_prism.Worker.Merge.{Extends, merge_technologies-Extends}

abbrev plain : Format
plain = record { to_upper = λ s. s; decimal = λ n. "2" }

abbrev service : String
service = "ARTICLES"

abbrev articles : Assigned
articles = record { prefix = "ART"; owner = "ARTICLES" } ∷ []

allocate-IsUnique_example : service ≡ service
unfolding allocate try_from owner_of base_of pad allocate_all after
allocate-IsUnique_example =
    allocate-IsUnique plain [] "ARTICLES" "ARTICLES" "ART" "ART" articles
      (allocate_all plain ("ARTISTS" ∷ []) articles) ("ARTISTS" ∷ []) refl refl refl

allocate-IsStable_example :
    allocate plain "ARTICLES" (allocate_all plain ("ARTISTS" ∷ []) articles)
    ≡ some ("ART", allocate_all plain ("ARTISTS" ∷ []) articles)
unfolding allocate try_from owner_of base_of pad
allocate-IsStable_example =
    allocate-IsStable plain [] "ARTICLES" "ART" articles ("ARTISTS" ∷ []) refl

abbrev technology : String → Technology
technology version = record {
  name = "laravel";
  detected_version = version;
  latest_version = "";
  status = 0;
  category = "framework";
  slug = "laravel";
}

merge_technologies-Extends_example :
    Extends
      (technology "8.0" ∷ [])
      (merge_technologies (technology "8.0" ∷ []) (technology "9.1" ∷ []))
merge_technologies-Extends_example =
    merge_technologies-Extends (technology "8.0" ∷ []) (technology "9.1" ∷ [])
