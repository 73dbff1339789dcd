-- ===== src/I18n.antt =====
-- pkg/i18n: messages in several languages. go-i18n, the tags of languages and the files of the system are the
-- parameter `Lib`. A bundle is shared by all that `Select` makes from one `I18n`, so it is passed beside it.
pub mod Tree
pub mod Loads
mod Examples
use public_pkg.Common.{
  ℕ, Bool, true, false, not, String, List, [], ◌∷◌, ◌++◌, Option, none, some, str_eq, if◌then◌else◌,
}
use public_pkg.Text.{Bytes, codes, is_empty}
use public_pkg.I18n.Tree.{Nodes, end, read_fs}

-- `stat` tells whether a path is a directory, if there is something; `walked` are the paths that
-- `filepath.Walk` visits, each with whether it is a directory; `localize` has an error, `none`.
pub record Lib : Type 1 where
  pub Tag : Type 0
  pub Bundle : Type 0
  pub Message : Type 0
  pub tag_text : Tag → String
  pub english : Tag
  pub new_bundle : Tag → Bundle
  pub register : String → Bundle → Bundle
  pub load_file : Bytes → Bundle → Bundle
  pub load_file_fs : Nodes → Bytes → Bundle → Bundle
  pub localize : Bundle → String → Message → Option String
  pub id_message : String → Message
  pub id : Message → String
  pub stat : Bytes → Option Bool
  pub walked : Bytes → List (Bytes × Bool)

-- `text` is the language that the localizer was made with.
pub record Options (l : Lib) : Type 0 where
  pub format : String
  pub language : l.Tag
  pub files : List Bytes
  pub fs : Nodes

pub record I18n (l : Lib) : Type 0 where
  pub ops : Options l
  pub localizer : String
  pub lang : l.Tag

module _ (l : Lib) where
  open l use {Tag, Bundle, Message}

  -- `getOptionsOrSetDefault`
  abbrev pub or_default : Option (Options l) → Options l
  or_default (some options) = options
  or_default none = record { format = "yml"; language = l.english; files = []; fs = end }

  unfoldable pub with_format : String → Options l → Options l
  with_format format options =
      if str_eq format "" then options else record options { format = format }

  unfoldable pub with_language : Tag → Options l → Options l
  with_language lang options =
      if str_eq (l.tag_text lang) "und" then options else record options { language = lang }

  unfoldable pub with_file : Bytes → Options l → Options l
  with_file f options =
      if is_empty f then options else record options { files = options.files ++ f ∷ [] }

  unfoldable pub with_fs : Nodes → Options l → Options l
  with_fs fs options = record options { fs = fs }

  abbrev pub load_walked : List (Bytes × Bool) → Bundle → Bundle
  load_walked [] bundle = bundle
  load_walked ((path, is_dir) ∷ paths) bundle =
      load_walked paths (if is_dir then bundle else l.load_file path bundle)

  -- `Add`
  unfoldable pub add : Bytes → Bundle → Bundle
  add f bundle = elim (l.stat f) [
    | none ↦ bundle
    | some is_dir ↦ if is_dir then load_walked (l.walked f) bundle else l.load_file f bundle
  ]

  -- The loop of `AddFS`.
  abbrev pub load_all : Nodes → List Bytes → Bundle → Bundle
  load_all fs [] bundle = bundle
  load_all fs (name ∷ files) bundle = load_all fs files (l.load_file_fs fs name bundle)

  -- `AddFS`, on the fuel of `readFS`
  unfoldable pub add_fs : ℕ → ℕ → Nodes → Bundle → Bundle
  unfolding read_fs
  add_fs fuel sep fs bundle = load_all fs (read_fs fuel sep fs (codes ".")) bundle

  abbrev pub apply_all : List (Options l → Options l) → Options l → Options l
  apply_all [] ops = ops
  apply_all (f ∷ options) ops = apply_all options (f ops)

  unfoldable pub add_all : List Bytes → Bundle → Bundle
  unfolding add
  add_all [] bundle = bundle
  add_all (item ∷ files) bundle = add_all files (add item bundle)

  -- The format whose reader is registered.
  abbrev pub registered : String → String
  registered format =
      if str_eq format "toml" then "toml" else if str_eq format "json" then "json" else "yaml"

  -- `New`
  unfoldable pub new : ℕ → ℕ → List (Options l → Options l) → I18n l × Bundle
  unfolding add_all add_fs
  new fuel sep options =
      let ops = apply_all options (or_default none) in
      let bundle = l.register (registered ops.format) (l.new_bundle ops.language) in
      (
        record { ops = ops; localizer = l.tag_text ops.language; lang = ops.language },
        add_fs fuel sep ops.fs (add_all ops.files bundle),
      )

  -- `Select`
  unfoldable pub select : I18n l → Tag → I18n l
  select i lang =
      let lang = if str_eq (l.tag_text lang) "und" then i.ops.language else lang in
      record { ops = i.ops; localizer = l.tag_text lang; lang = lang }

  -- `LocalizeT`; a nil message is `none`.
  unfoldable pub localize_t : I18n l → Bundle → Option Message → String
  localize_t i bundle none = ""
  localize_t i bundle (some message) = elim (l.localize bundle i.localizer message) [
    | none ↦ l.id message
    | some rp ↦ rp
  ]

  -- `T`
  unfoldable pub t : I18n l → Bundle → String → String
  unfolding localize_t
  t i bundle id = localize_t i bundle (some (l.id_message id))

  -- `FromContext`, with what the context has.
  unfoldable pub from_context : ℕ → ℕ → Option (I18n l × Bundle) → I18n l × Bundle
  unfolding new
  from_context fuel sep (some i) = i
  from_context fuel sep none = new fuel sep []
