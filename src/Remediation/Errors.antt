-- ===== src/Remediation/Errors.antt =====
-- domain/errors.py and the errors of repository.py and policy/errors.py: one constructor for each
-- exception class. The messages are left out, but for what a message of a parameter error tells.

-- Why `validate_action_parameters` refused.
pub data ParameterFault : Type 0 where
  unknown_parameter missing_parameter wrong_type below_minimum above_maximum : ParameterFault
  value_not_allowed pattern_mismatch : ParameterFault

pub data Error : Type 0 where
  unknown_action unknown_target invalid_transition approval_error : Error
  parameter_validation : ParameterFault → Error
  invalid_window : Error
  -- pydantic's `ValidationError` of an approval, and of the proposer of a proposal
  invalid_approval invalid_proposer : Error
  policy_error : Error
  not_found already_exists already_decided invalid_state expired_error policy_blocked : Error
  unauthorized_approver not_mappable execution_conflict verification_conflict : Error
  executor_failure : Error
