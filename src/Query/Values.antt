-- ===== src/Query/Values.antt =====
-- The fields and values that `Complete` proposes (internal/querylang/complete.go).
use repo_karta.Common.Text.{Text, codes, text_eq}
use repo_karta.Common.{List, [], ◌∷◌, ◌++◌, if◌then◌else◌}
use repo_karta.Query.Fields.{
  Field, content, repository, revision, language, path, file, symbol_kind, result_type, owner,
  package_name, type_name, method, member, full_name, match_mode, case_mode, author, message, added,
  removed, after, before, branch, from, to, field_name,
}

-- `Option`, a value with the text that describes it.
pub record Choice : Type 0 where
  pub value : Text
  pub label : Text

pub record CompletionOptions : Type 0 where
  pub repositories : List Choice
  pub revisions : List Choice
  pub owners : List Choice

-- `fieldDefinition`
pub record FieldDefinition : Type 0 where
  pub name : Text
  pub detail : Text
  pub values : List Choice

-- `options`
abbrev choices : List Text → List Choice
choices [] = []
choices (v ∷ vs) = record { value = v; label = v } ∷ choices vs

abbrev define : Text → Text → List Text → FieldDefinition
define n d vs = record { name = n; detail = d; values = choices vs }

-- `completionFields`
abbrev pub completion_fields : List FieldDefinition
completion_fields =
    define (codes "repository") (codes "Repository name or stable ID") []
    ∷ define (codes "revision") (codes "Exact indexed commit") []
    ∷ define (codes "language") (codes "Indexed source language") (
        codes "Bash"
        ∷ codes "Go"
        ∷ codes "Groovy"
        ∷ codes "Java"
        ∷ codes "JavaScript"
        ∷ codes "Kotlin"
        ∷ codes "Python"
        ∷ codes "SQL"
        ∷ codes "TSX"
        ∷ codes "TypeScript"
        ∷ [])
    ∷ define (codes "path") (codes "Repository-relative path contains") []
    ∷ define (codes "file") (codes "Filename contains") []
    ∷ define (codes "symbol_kind") (codes "Programming element kind") (
        codes "class"
        ∷ codes "constant"
        ∷ codes "field"
        ∷ codes "function"
        ∷ codes "interface"
        ∷ codes "method"
        ∷ codes "module"
        ∷ codes "package"
        ∷ codes "type"
        ∷ codes "variable"
        ∷ [])
    ∷ define (codes "result_type") (codes "Explicit result category") (
        codes "code_insight"
        ∷ codes "commit"
        ∷ codes "content"
        ∷ codes "dependency"
        ∷ codes "diff"
        ∷ codes "file_path"
        ∷ codes "implementation"
        ∷ codes "reference"
        ∷ codes "repository"
        ∷ codes "route"
        ∷ codes "symbol_definition"
        ∷ codes "wiki_page"
        ∷ [])
    ∷ define (codes "owner") (codes "CODEOWNERS identity or explicit state")
        (codes "owned" ∷ codes "unavailable" ∷ codes "unowned" ∷ codes "unresolved" ∷ [])
    ∷ define (codes "package") (codes "Qualified package or namespace") []
    ∷ define (codes "type_name") (codes "Qualified or simple type name") []
    ∷ define (codes "method") (codes "Qualified or simple method name") []
    ∷ define (codes "member") (codes "Qualified or simple field/member name") []
    ∷ define (codes "full_name") (codes "Compiler or syntax-backed full symbol name") []
    ∷ define (codes "match") (codes "Programming-element match mode")
        (codes "exact" ∷ codes "prefix" ∷ codes "contains" ∷ [])
    ∷ define (codes "case") (codes "Programming-element case mode")
        (codes "insensitive" ∷ codes "sensitive" ∷ [])
    ∷ define (codes "author") (codes "Git author name or email contains") []
    ∷ define (codes "message") (codes "Git subject or body contains") []
    ∷ define (codes "added") (codes "Added diff line contains") []
    ∷ define (codes "removed") (codes "Removed diff line contains") []
    ∷ define (codes "after") (codes "Authored on or after YYYY-MM-DD") []
    ∷ define (codes "before") (codes "Authored on or before YYYY-MM-DD") []
    ∷ define (codes "branch") (codes "Reachable local or remote branch") []
    ∷ define (codes "from") (codes "Reachable range start revision") []
    ∷ define (codes "to") (codes "Reachable range end revision") []
    ∷ []

-- `canonicalFieldName`; the `default` case is the constant's own value.
unfoldable pub canonical_field_name : Field → Text
unfolding field_name
canonical_field_name repository = codes "repository"
canonical_field_name revision = codes "revision"
canonical_field_name language = codes "language"
canonical_field_name path = codes "path"
canonical_field_name file = codes "file"
canonical_field_name symbol_kind = codes "symbol_kind"
canonical_field_name result_type = codes "result_type"
canonical_field_name owner = codes "owner"
canonical_field_name package_name = codes "package"
canonical_field_name type_name = codes "type_name"
canonical_field_name method = codes "method"
canonical_field_name member = codes "member"
canonical_field_name full_name = codes "full_name"
canonical_field_name match_mode = codes "match"
canonical_field_name case_mode = codes "case"
canonical_field_name author = codes "author"
canonical_field_name message = codes "message"
canonical_field_name added = codes "added"
canonical_field_name removed = codes "removed"
canonical_field_name after = codes "after"
canonical_field_name before = codes "before"
canonical_field_name branch = codes "branch"
canonical_field_name from = codes "from"
canonical_field_name to = codes "to"
canonical_field_name content = field_name content

-- The values of the first definition with a name.
named_values : Text → List FieldDefinition → List Choice
unfolding text_eq
named_values name [] = []
named_values name (d ∷ ds) = if text_eq name d.name then d.values else named_values name ds

-- `completionValues`
unfoldable pub completion_values : Field → CompletionOptions → List Choice
unfolding named_values canonical_field_name
completion_values repository dynamic = dynamic.repositories
completion_values revision dynamic = dynamic.revisions
completion_values owner dynamic = dynamic.owners ++ named_values (codes "owner") completion_fields
completion_values f dynamic = named_values (canonical_field_name f) completion_fields
