-- ===== src/Samples.antt =====
-- Runs of the theorems at concrete inputs: a corpus of three Contracts, and the runs of the
-- oracle and of the tools on small cases.
mod Corpus
mod ContractsCases
mod GraphCases
mod OracleCases
mod RunCases
mod QemuCases
mod WholeCases
mod ReferenceCases
mod DatasetCases
mod BuildCases
mod PayloadCases
mod SelfTestCases
mod MinimizationCases
mod ScoringCases
mod ResultsCases
mod NormalizationCases
