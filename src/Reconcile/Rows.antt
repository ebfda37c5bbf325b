-- ===== src/Reconcile/Rows.antt =====
-- The rows and documents that the reconciliation policy reads. A field that a document lacks is
-- `undefined`; that documents are objects and collections are arrays is in the types.
use myne.Js.{Value}

pub record Bet : Type 0 where
  pub round_id : Value
  pub receipt : Value
  pub square : Value
  pub amount_wei : Value

pub record Settlement : Type 0 where
  pub round_id : Value
  pub receipt : Value
  pub status : Value
  pub sol_lamports : Value
  pub myne_base_units : Value
  pub motherlode_base_units : Value
