-- ===== src/Projects/SubRoutes.antt =====
-- apps/web/src/app/api/v1/projects/[id]: the routes blocks, categories, issues, rfis and drawings, which
-- list the rows of a project and add one, and the list of boq. The columns that a request gives are the fields of an object;
-- `admits` stands for the types and constraints of a table, `sorted` for the ORDER BY of a query, and
-- the ids are those of `gen_random_uuid()`.
pub mod Confined
use hippo_build_x.Prelude.{
  String, Bool, false, not, ◌&&◌, ◌||◌, Option, none, some, List, [], ◌∷◌, ◌++◌, filter, or_null,
  if◌then◌else◌, ◌==◌,
}
use hippo_build_x.Prelude.Effect.{Result, ok, err, other, bind_result}
use hippo_build_x.Shared.Errors.{validation}
use hippo_build_x.Rbac.Context.{Ctx, JsString, present}
use hippo_build_x.Projects.Access.{assert_project_access}
use hippo_build_x.Projects.Drawings.{Drawing, Upload, create_drawing_version}
use hippo_build_x.Admin.Channels.Json.{
  Value, Fields, end, field, text, null, get, is_truthy, or_undefined,
}

-- A row of `blocks`, `unit_categories`, `issues`, `rfis` or `boq_items`. One parameter of the query
-- sets both `created_by` and `raised_by` of an RFI, so `created_by` stands for both.
pub record SubRow : Type 0 where
  pub id : String
  pub tenant_id : String
  pub project_id : String
  pub columns : Fields
  pub created_by : JsString
  pub deleted : Bool

-- `WHERE project_id = $1 AND deleted_at IS NULL`
abbrev pub of_project : String → SubRow → Bool
of_project id r = r.project_id == id && not r.deleted

-- `body[name] || fallback`
abbrev pub value_or : Value → Option Value → Value
value_or fallback none = fallback
value_or fallback (some v) = if is_truthy v then v else fallback

-- `body[name] ?? null`
abbrev pub given_or_null : Option Value → Value
given_or_null none = null
given_or_null (some v) = v

module _ (sorted : List SubRow → List SubRow) (ctx : Ctx) where
  -- GET
  unfoldable pub get_rows : String → List SubRow → Result (List SubRow) × List SubRow
  get_rows id rows =
      bind_result (assert_project_access ctx id, rows)
        (λ _ rows. (ok (sorted (filter (of_project id) rows)), rows))

  -- GET of blocks
  unfoldable pub get_blocks : String → List SubRow → Result (List SubRow) × List SubRow
  unfolding get_rows
  get_blocks = get_rows

  -- GET of categories
  unfoldable pub get_categories : String → List SubRow → Result (List SubRow) × List SubRow
  unfolding get_rows
  get_categories = get_rows

  -- GET of issues
  unfoldable pub get_issues : String → List SubRow → Result (List SubRow) × List SubRow
  unfolding get_rows
  get_issues = get_rows

  -- GET of rfis
  unfoldable pub get_rfis : String → List SubRow → Result (List SubRow) × List SubRow
  unfolding get_rows
  get_rfis = get_rows

  -- GET of boq
  unfoldable pub get_boq : String → List SubRow → Result (List SubRow) × List SubRow
  unfolding get_rows
  get_boq = get_rows

-- The columns of a new row, or the message for a body that lacks one.
abbrev pub two_columns :
    String → Option Value → Option Value → (Value → Value → Fields) → Result Fields
two_columns missing (some a) (some b) columns = ok (columns a b)
two_columns missing _ _ columns = err (validation missing)

unfoldable pub block_columns : Fields → Result Fields
unfolding get is_truthy
block_columns body =
    two_columns "name and code required" (or_undefined (get "name" body))
      (or_undefined (get "code" body)) (λ name code. field "name" name (field "code" code end))

unfoldable pub category_columns : Fields → Result Fields
unfolding get is_truthy
category_columns body =
    two_columns "name and code required" (or_undefined (get "name" body))
      (or_undefined (get "code" body))
      (λ name code. field "name" name (
        field "code" code (
          field "bedrooms" (given_or_null (get "bedrooms" body)) (
            field "bathrooms" (given_or_null (get "bathrooms" body)) (
              field "carpet_area" (given_or_null (get "carpetArea" body))
                (field "base_price" (given_or_null (get "basePrice" body)) end))))))

unfoldable pub issue_columns : Fields → Result Fields
unfolding get is_truthy
issue_columns body = elim (or_undefined (get "title" body)) [
  | none ↦ err (validation "title required")
  | some title ↦ ok (
      field "title" title (
        field "description" (value_or null (get "description" body))
          (field "severity" (value_or (text "medium") (get "severity" body)) end)))
]

unfoldable pub rfi_columns : Fields → Result Fields
unfolding get is_truthy
rfi_columns body =
    two_columns "title and question required" (or_undefined (get "title" body))
      (or_undefined (get "question" body))
      (λ title question. field "title" title (field "question" question end))

module _ (admits : SubRow → List SubRow → Bool) (ctx : Ctx)
    (tenant_id row_id project_id : String) where
  abbrev pub new_row : Fields → SubRow
  new_row columns = record {
    id = row_id;
    tenant_id = tenant_id;
    project_id = project_id;
    columns = columns;
    created_by = ctx.user_id;
    deleted = false;
  }

  -- `INSERT INTO ... RETURNING *`
  unfoldable pub insert_row : Fields → List SubRow → Result SubRow × List SubRow
  insert_row columns rows =
      let row = new_row columns in
      if admits row rows
      then (ok row, rows ++ row ∷ [])
      else (err (other "violates constraint"), rows)

  -- The part that the POST routes share.
  unfoldable pub post_row :
      (Fields → Result Fields) → Fields → List SubRow → Result SubRow × List SubRow
  unfolding insert_row
  post_row columns_of body rows =
      bind_result (assert_project_access ctx project_id, rows)
        (λ _ rows. bind_result (columns_of body, rows) insert_row)

  -- POST of blocks
  unfoldable pub post_block : Fields → List SubRow → Result SubRow × List SubRow
  unfolding post_row block_columns
  post_block = post_row block_columns

  -- POST of categories
  unfoldable pub post_category : Fields → List SubRow → Result SubRow × List SubRow
  unfolding post_row category_columns
  post_category = post_row category_columns

  -- POST of issues
  unfoldable pub post_issue : Fields → List SubRow → Result SubRow × List SubRow
  unfolding post_row issue_columns
  post_issue = post_row issue_columns

  -- POST of rfis
  unfoldable pub post_rfi : Fields → List SubRow → Result SubRow × List SubRow
  unfolding post_row rfi_columns
  post_rfi = post_row rfi_columns

pub record DrawingBody : Type 0 where
  pub title : Option String
  pub drawing_number : Option String
  pub file_url : Option String
  pub notes : Option String

module _ (ctx : Ctx) (tenant_id row_id project_id : String) where
  abbrev pub upload_of : DrawingBody → String → String → Upload
  upload_of b title drawing_number = record {
    tenant_id = tenant_id;
    project_id = project_id;
    drawing_number = drawing_number;
    title = title;
    file_url = b.file_url;
    notes = b.notes;
    user_id = present ctx.user_id;
  }

  abbrev pub add_drawing :
      DrawingBody → Option String → Option String → List Drawing → Result Drawing × List Drawing
  add_drawing b (some title) (some drawing_number) rows =
      let (row, rows') = create_drawing_version row_id (upload_of b title drawing_number) rows in
      (ok row, rows')
  add_drawing b _ _ rows = (err (validation "title and drawingNumber required"), rows)

  -- POST of drawings
  unfoldable pub post_drawing : DrawingBody → List Drawing → Result Drawing × List Drawing
  post_drawing b rows =
      bind_result (assert_project_access ctx project_id, rows)
        (λ _. add_drawing b (or_null b.title) (or_null b.drawing_number))

-- GET of drawings
unfoldable pub get_drawings :
    (List Drawing → List Drawing)
    → Ctx
    → String
    → List Drawing
    → Result (List Drawing) × List Drawing
get_drawings sorted ctx id rows =
    bind_result (assert_project_access ctx id, rows)
      (λ _ rows. (ok (sorted (filter (λ d. d.project_id == id && not d.deleted) rows)), rows))
