-- ===== src/Search/PathClass.antt =====
-- src/search/path_class.rs: which paths are tests, and which are documentation.
use trufflepig.Prelude.{
  ℕ, ◌+◌, Bool, false, ◌&&◌, ◌||◌, not, Option, none, some, List, [], ◌∷◌, nat_eq, get_elem?,
}
use trufflepig.Prelude.Texts.{
  Text, chars, lower_ascii, split_at, split_once, rsplit_once, is_word, is_one_of, ends, begins,
  contains_text,
}

abbrev pub is_slash : ℕ → Bool
is_slash c = nat_eq c b'/'

-- `path.rsplit_once('/').unwrap_or(("", path))` and `file.split_once('.').unwrap_or((file, ""))`
abbrev pub directory_and_file : Text → Text × Text
directory_and_file path = elim (rsplit_once (chars "/") path) [
  | none ↦ ([], path)
  | some parts ↦ parts
]

abbrev pub stem_and_extension : Text → Text × Text
stem_and_extension file = elim (split_once (chars ".") file) [
  | none ↦ (file, [])
  | some parts ↦ parts
]

abbrev is_src : Option Text → Bool
is_src none = false
is_src (some component) = is_word component "src"

-- `index` is the position of the first of these directories.
unfoldable pub has_test_directory : List Text → ℕ → List Text → Bool
has_test_directory components index [] = false
has_test_directory components index (directory ∷ rest) =
    (is_one_of directory ("tests" ∷ "__tests__" ∷ "spec" ∷ "testdata" ∷ [])
      || (is_word directory "test" && not (is_src (get_elem? components (index + 1)))))
    || has_test_directory components (index + 1) rest

unfoldable pub is_test_path : Text → Bool
unfolding has_test_directory split_at
is_test_path given =
    let path = lower_ascii given in
    let (directories, file) = directory_and_file path in
    let (stem, extension) = stem_and_extension file in
    has_test_directory (split_at is_slash [] path) 0 (split_at is_slash [] directories)
    || (is_word stem "tests"
        || (ends stem (chars "_tests")
            || (contains_text file (chars ".test.")
                || (contains_text file (chars ".spec.")
                    || ((ends stem (chars "_test") && is_one_of extension ("go" ∷ "py" ∷ []))
                        || ((begins stem (chars "test_") && is_word extension "py")
                            || (ends stem (chars "_spec") && is_word extension "rb")))))))

unfoldable pub is_doc_pointer_path : Text → Bool
is_doc_pointer_path given =
    let path = lower_ascii given in ends path (chars ".md") || ends path (chars ".markdown")
