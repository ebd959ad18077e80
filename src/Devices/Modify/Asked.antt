-- ===== src/Devices/Modify/Asked.antt =====
-- The columns of a node and the fields of the register after the changes of a request, each by its name.
use Prim.Native.String.{String}
use mathlib.Core.Path.{subst}
use snapemu_workflow.Base.{
  ◌≡◌, refl, sym, ◌∙◌, inl, inr, Bool, true, Bool-cases, ap, Option, if◌then◌else◌, false, none,
  some, List, [], ◌∷◌,
}
use snapemu_workflow.Base.Dict.{insert as put}
use snapemu_workflow.Redis.{Str, Fields, text_eq}
use snapemu_workflow.Register.{NodeRow}
use snapemu_workflow.Devices.Modify.{DeviceModify, Change, node_changes, set_column}

-- What the changes make of the fields of the register, and of the columns of the table.
abbrev pub fields_after : List Change → Fields → Fields
fields_after [] h = h
fields_after ((column, field, none) ∷ changes) h = fields_after changes h
fields_after ((column, field, some v) ∷ changes) h = fields_after changes (put field v h)

abbrev pub node_after : List Change → NodeRow → NodeRow
node_after [] node = node
node_after ((column, field, none) ∷ changes) node = node_after changes node
node_after ((column, field, some v) ∷ changes) node = node_after changes (set_column column v node)

-- What a request asks for under the name of a column, but for the session key of the application.
abbrev pub asked : DeviceModify → String → Option Str
asked info n =
    if text_eq.beq "region" n
    then info.region
    else if text_eq.beq "class_c" n
    then info.class_c
    else if text_eq.beq "join_type" n
    then info.join_type
    else if text_eq.beq "app_eui" n
    then info.app_eui
    else if text_eq.beq "app_key" n
    then info.app_key
    else if text_eq.beq "nwk_skey" n
    then info.nwk_skey
    else none

abbrev pub given : Option Str → Option Str → Option Str
given none old = old
given (some v) old = some v

-- The value of one name after changes, each under the name that `name` takes from it.
abbrev pub latest : (Change → String) → List Change → String → Option Str → Option Str
latest name [] n old = old
latest name (c ∷ changes) n old =
    latest name changes n (if text_eq.beq (name c) n then given c.2 old else old)

abbrev pub column_of : Change → String
column_of c = c.0

abbrev pub field_of : Change → String
field_of c = c.1

unchanged : (b : Bool) (old : Option Str) → old ≡ (if b then old else old)
unchanged true old = refl
unchanged false old = refl

pub fields_after-latest :
    (changes : List Change) (h : Fields) (n : String)
    → fields_after changes h n ≡ latest field_of changes n (h n)
unfolding put
fields_after-latest [] h n = refl
fields_after-latest ((column, field, none) ∷ changes) h n =
    fields_after-latest changes h n
    ∙ ap (latest field_of changes n) (unchanged (text_eq.beq field n) (h n))
fields_after-latest ((column, field, some v) ∷ changes) h n =
    fields_after-latest changes (put field v h) n

pub node_after-latest :
    (changes : List Change) (node : NodeRow) (n : String)
    → (node_after changes node).column n ≡ latest column_of changes n (node.column n)
unfolding set_column put
node_after-latest [] node n = refl
node_after-latest ((column, field, none) ∷ changes) node n =
    node_after-latest changes node n
    ∙ ap (latest column_of changes n) (unchanged (text_eq.beq column n) (node.column n))
node_after-latest ((column, field, some v) ∷ changes) node n =
    node_after-latest changes (set_column column v node) n

-- A name is one of those of the settings, or is none of them.
pub data Named (n : String) : Type 0 where
  is_region : "region" ≡ n → Named n
  is_class_c : "class_c" ≡ n → Named n
  is_join_type : "join_type" ≡ n → Named n
  is_app_eui : "app_eui" ≡ n → Named n
  is_app_key : "app_key" ≡ n → Named n
  is_nwk_skey : "nwk_skey" ≡ n → Named n
  is_other :
      text_eq.beq "region" n ≡ false
      → text_eq.beq "class_c" n ≡ false
      → text_eq.beq "join_type" n ≡ false
      → text_eq.beq "app_eui" n ≡ false
      → text_eq.beq "app_key" n ≡ false
      → text_eq.beq "nwk_skey" n ≡ false
      → Named n

pub named : (n : String) → Named n
named n = elim (Bool-cases (text_eq.beq "region" n)) [
  | inl e ↦ is_region ((text_eq.beq_iff "region" n).0 e)
  | inr not_region ↦ elim (Bool-cases (text_eq.beq "class_c" n)) [
    | inl e ↦ is_class_c ((text_eq.beq_iff "class_c" n).0 e)
    | inr not_class_c ↦ elim (Bool-cases (text_eq.beq "join_type" n)) [
      | inl e ↦ is_join_type ((text_eq.beq_iff "join_type" n).0 e)
      | inr not_join_type ↦ elim (Bool-cases (text_eq.beq "app_eui" n)) [
        | inl e ↦ is_app_eui ((text_eq.beq_iff "app_eui" n).0 e)
        | inr not_app_eui ↦ elim (Bool-cases (text_eq.beq "app_key" n)) [
          | inl e ↦ is_app_key ((text_eq.beq_iff "app_key" n).0 e)
          | inr not_app_key ↦ elim (Bool-cases (text_eq.beq "nwk_skey" n)) [
            | inl e ↦ is_nwk_skey ((text_eq.beq_iff "nwk_skey" n).0 e)
            | inr not_nwk_skey ↦
                is_other not_region not_class_c not_join_type not_app_eui not_app_key not_nwk_skey
          ]
        ]
      ]
    ]
  ]
]

pub column-Named :
    (info : DeviceModify) (n : String) (old : Option Str)
    → info.app_skey ≡ none
    → Named n
    → latest column_of (node_changes info) n old ≡ given (asked info n) old
unfolding node_changes
column-Named info n old no_key (is_region e) =
    subst (λ m. latest column_of (node_changes info) m old ≡ given (asked info m) old) e refl
column-Named info n old no_key (is_class_c e) =
    subst (λ m. latest column_of (node_changes info) m old ≡ given (asked info m) old) e refl
column-Named info n old no_key (is_join_type e) =
    subst (λ m. latest column_of (node_changes info) m old ≡ given (asked info m) old) e refl
column-Named info n old no_key (is_app_eui e) =
    subst (λ m. latest column_of (node_changes info) m old ≡ given (asked info m) old) e refl
column-Named info n old no_key (is_app_key e) =
    subst (λ m. latest column_of (node_changes info) m old ≡ given (asked info m) old) e refl
column-Named info n old no_key (is_nwk_skey e) =
    subst (λ m. latest column_of (node_changes info) m old ≡ given (asked info m) old) e refl
column-Named info n old no_key (is_other n0 n1 n2 n3 n4 n5) =
    rw (n0, n1, n2, n3, n4, n5, no_key) (sym (unchanged (text_eq.beq "app_skey" n) old))

pub field-Named :
    (info : DeviceModify) (n : String) (old : Option Str)
    → info.app_skey ≡ none
    → Named n
    → latest field_of (node_changes info) n old ≡ given (asked info n) old
unfolding node_changes
field-Named info n old no_key (is_region e) =
    subst (λ m. latest field_of (node_changes info) m old ≡ given (asked info m) old) e refl
field-Named info n old no_key (is_class_c e) =
    subst (λ m. latest field_of (node_changes info) m old ≡ given (asked info m) old) e refl
field-Named info n old no_key (is_join_type e) =
    subst (λ m. latest field_of (node_changes info) m old ≡ given (asked info m) old) e refl
field-Named info n old no_key (is_app_eui e) =
    subst (λ m. latest field_of (node_changes info) m old ≡ given (asked info m) old) e refl
field-Named info n old no_key (is_app_key e) =
    subst (λ m. latest field_of (node_changes info) m old ≡ given (asked info m) old) e
      (rw no_key refl)
field-Named info n old no_key (is_nwk_skey e) =
    subst (λ m. latest field_of (node_changes info) m old ≡ given (asked info m) old) e refl
field-Named info n old no_key (is_other n0 n1 n2 n3 n4 n5) = rw (n0, n1, n2, n3, n4, n5) refl
