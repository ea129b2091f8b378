-- ===== src/Lib.antt =====
-- A model of the sampling code. Its first part is the plan scaler,
-- src/sampling/plan_scaler.py, which moves an optimised query plan from one scale factor of a
-- benchmark database to another: a JSON patch is applied to the base plan, the scans of the two
-- scale factors are matched by signature, scan nodes inside the plan are bound to the new data,
-- nodes are renumbered apart from the scan ids, references are rewritten, and the result is
-- checked before it is returned. The second is the loop of src/sampling/orchestrator.py over the
-- steps of sampling: src/sampling/sample_plans.py picks base plans from the tree of samples of each
-- query by a strategy, src/sampling/gpt_plan_optimizer.py asks a language model for patches, plans
-- are validated by runs that src/modal_controller/utils.py submits, and
-- src/sampling/accumulate_samples.py extends the trees by the samples of the step, with fresh ids
-- and the flags `is_last` and `is_leaf`.
--
-- Files, with the functions that they model (a definition has the function's name without its
-- leading underscore):
--   Json        JSON values; Json/Equality is Python's `==`, Json/Dumps is `_json_dumps_canonical`
--   Error       `PlanTransferError`, by its reason, and the built-in exceptions that can arise
--   Pointer     `_json_pointer_*`; Pointer/Laws relates get, add, remove and replace
--   Patch       `_apply_json_patch`
--   Refs        `_is_intish`, `_to_int`, the walks over references, `_validate_structure_dict` and
--               `_validate_references`; Refs/Sound describes references independently of the walk
--   Scans       `_table_info_entries`, `_scan_normalized_signature`, `_build_scan_signature_map`,
--               `_build_scan_id_mapping`
--   Graph       `_find_internal_references`, `_find_roots`, `_topo_order_from_roots`
--   Renumber    `_assign_new_node_ids`
--   Rewrite     `_rewrite_plan_references`
--   Rebind      `_rebind_parquet_scans_in_structure`
--   Transfer    `_transfer_plan` and `transfer_plan`
--   Samples     `prepare_sampling` and `accumulate_samples`, as functions of the contents of their files;
--               Samples/Extended describes a step independently of the code
--   Selection   `get_upstream_patches` and `get_upstream_evaluation_stats` of
--               src/sampling/sample_plans.py; Selection/Applied describes the patches independently
--   Metric      `get_metric_value` of src/dbplanbench_utils.py
--   Bases       `SamplingStrategy` and `get_base_plans_for_sampling` of src/sampling/sample_plans.py
--   Generation  `optimize_plan` and `optimize_plans_batch` of src/sampling/gpt_plan_optimizer.py
--   NewSamples  `sample_plans_from_file` of src/sampling/sample_plans.py and `apply_patches_to_plan` of
--               src/sampling/utils.py
--   Validation  `compare_result_sets` and `validate_plan_result_set` of src/modal_controller/utils.py
--   Operations  `read_uuid_result` and `submit_run_operation` of src/modal_controller/utils.py, with
--               the keywords of src/modal_controller/constants.py
--   Evaluation  `evaluate_plan_n_runs`, `compute_metric_stats` and `_percentile` of
--               src/modal_controller/utils.py
--   Orchestrator  `run_sampling_steps` and its helpers, of src/sampling/orchestrator.py
--   Prelude     shared helpers: tests, results, lists, integers, texts, dictionaries, sorting, and
--               results that arrive in any order
--   Tests       runs of the definitions, and the theorems applied to concrete documents
--
-- Conventions. A document is a value: `copy.deepcopy` is the identity, a mutation in place is a
-- write back at the place of the parent, and the comparisons of inputs with their snapshots, which
-- always succeed, are left out. A Python exception is an error value; the text of a
-- `PlanTransferError` is a constructor of `Reason` that keeps the numbers in it. An object keeps
-- its entries in insertion order. A set of ids is a list, where only membership is used. Query and
-- sample ids are natural numbers, which is what the program itself assigns.
--
-- Parameters. A float is its bit pattern; how floats compare and print is the parameter `Floats`,
-- since it is IEEE arithmetic and Python's `repr`. No theorem has a hypothesis on it. `Numbers`
-- adds the order of numbers, `Arithmetic` the operations on them, `Llm` the language model and the
-- search for patches in its answers, `Patcher` the JSON patch library, `Pandas` what the comparison
-- of result sets uses of it, and `Remote` the runner and the store of results. `Arrivals`, and a
-- list of numbers elsewhere, is the order in which an executor completes its calls; `IsComplete`
-- says that it completes each of them. `Steps` are the calls of the orchestrator that generate and
-- evaluate plans.
--
-- Fuel. The recursion of the traversal has one more than the number of nodes as fuel, and
-- `next_free` one more than the number of used ids; the walk up the tree of samples has one more
-- than the number of plans. That these are enough is part of the theorems on `traversal_order`,
-- `assign_new_node_ids` and the two walks.
--
-- Not modelled: characters other than ASCII in `isdigit` and `int`, so that the theorems on the plan
-- scaler speak of documents whose keys and references have no other digits; Python's limits on recursion
-- and on the digits of an integer, the sleeps and semaphores that only delay a call, the deletion of
-- payloads, a kill of the process in the middle of a step, and the other parts of the repository:
-- the queue of evaluations, the generation of queries, prompts, remote execution, data generation,
-- the command line and its files.
pub mod Prelude
pub mod Error
pub mod Json
pub mod Pointer
pub mod Patch
pub mod Refs
pub mod Scans
pub mod Graph
pub mod Renumber
pub mod Rewrite
pub mod Rebind
pub mod Transfer
pub mod Samples
pub mod Selection
pub mod Metric
pub mod Bases
pub mod Generation
pub mod NewSamples
pub mod Validation
pub mod Operations
pub mod Orchestrator
pub mod Evaluation
pub mod Tests
