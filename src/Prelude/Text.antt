-- ===== src/Prelude/Text.antt =====
-- str.strip(), str.split() and " ".join of Python.
use Prim.Native.Nat.{ℕ}
use Prim.Native.String.{String}
use Prim.Native.Char.{Char, code}
use Prim.Native.String.{◌++◌ as str_append}
use mathlib.Core.List.{List, [], ◌∷◌}
use mathlib.Core.Bool.{Bool, true, false, ◌&&◌, ◌||◌}
use auto_script_hub.Prelude.Tests.{◌==◌, leb, if◌then◌else◌}

-- str.isspace of one character.
abbrev pub is_space : ℕ → Bool
is_space c =
    (leb 9 c && leb c 13)
    || ((leb 28 c && leb c 32)
        || (c == 133
            || (c == 160
                || (c == 5760
                    || ((leb 8192 c && leb c 8202)
                        || (c == 8232
                            || (c == 8233 || (c == 8239 || (c == 8287 || c == 12288)))))))))

abbrev pub is_empty : String → Bool
is_empty String.[] = true
is_empty (String.◌∷◌ c s) = false

unfoldable pub lstrip : String → String
lstrip String.[] = String.[]
lstrip (String.◌∷◌ c s) = if is_space (code c) then lstrip s else String.◌∷◌ c s

-- What is left of a text behind one character that is kept or, at the end, dropped.
abbrev pub before_end : Char → String → String
before_end c s = if is_space (code c) && is_empty s then String.[] else String.◌∷◌ c s

unfoldable pub rstrip : String → String
rstrip String.[] = String.[]
rstrip (String.◌∷◌ c s) = before_end c (rstrip s)

unfoldable pub strip : String → String
unfolding lstrip rstrip
strip s = rstrip (lstrip s)

-- str.split() with no argument, from the right: a word that is being read, and those behind it.
abbrev pub flush_word : String × List String → List String
flush_word (w, ws) = if is_empty w then ws else w ∷ ws

abbrev pub read_char : Char → String × List String → String × List String
read_char c (w, ws) =
    if is_space (code c) then (String.[], flush_word (w, ws)) else (String.◌∷◌ c w, ws)

unfoldable pub read_words : String → String × List String
read_words String.[] = (String.[], [])
read_words (String.◌∷◌ c s) = read_char c (read_words s)

unfoldable pub words : String → List String
unfolding read_words
words s = flush_word (read_words s)

-- " ".join
unfoldable pub unwords : List String → String
unwords [] = ""
unwords (w ∷ []) = w
unwords (w ∷ v ∷ ws) = str_append w (str_append " " (unwords (v ∷ ws)))

-- str.startswith: the prefix comes first here.
unfoldable pub starts_with : String → String → Bool
starts_with String.[] s = true
starts_with (String.◌∷◌ c p) String.[] = false
starts_with (String.◌∷◌ c p) (String.◌∷◌ d s) =
    let rest = starts_with p s in (code c == code d) && rest
