-- ===== src/Tests/Programs.antt =====
-- Runs of the program of examples/tx, and of the progress display (pkg/provenance/attribute.go).
use prov_go.Base.{◌≡◌, [], ◌∷◌}
use prov_go.Attributes.Renderer.{
  counted, told, run_calls, new_renderer, show_all, blank, shown, screen_shows,
}

screen_shows_example :
    show_all blank (run_calls (counted ∷ told (b'o' ∷ b'k' ∷ []) ∷ counted ∷ []) new_renderer).1
    ≡ shown 2 (b'o' ∷ b'k' ∷ [])
screen_shows_example = screen_shows counted (told (b'o' ∷ b'k' ∷ []) ∷ counted ∷ [])
